-- ===== src/ConnectClient.antt =====
-- lab1/client1-2/client.c: a client that connects to a server and leaves.
use dp.Base.{ℕ, ◌%◌, ◌^◌, Option, none, some, List, [], ◌∷◌}
use dp.Base.Int.{ℤ, to_uint}
use dp.Os.Calls.{Fd, Os}
use dp.Os.Io.{Io, undefined, pure, stop, call, ◌>>=◌, ◌>>◌}
use dp.Errlib.{err_sys}
use dp.Sockwrap.Setup.{Network}

-- `inet_aton` and `atoi` are the functions of these names, `address` makes a socket address of a port
-- and an address.
module _ (os : Os) (net : Network os.World) (inet_aton : List ℕ → Option (List ℕ))
    (atoi : List ℕ → ℤ) (address : ℕ → List ℕ → List ℕ) where
  -- The results of `inet_aton`, `connect` and `close` are not looked at; an address that was not
  -- stored is indeterminate.
  unfoldable pub connect_from : ℕ → Option (List ℕ) → Fd → Io os.World ℕ
  connect_from port none s = stop undefined
  connect_from port (some host) s =
      call (net.connect s (address port host) 16) >> call (os.close s) >> pure 0

  unfoldable pub with_socket : ℕ → Option (List ℕ) → Option Fd → Io os.World ℕ
  unfolding connect_from
  with_socket port host none = err_sys
  with_socket port host (some s) = connect_from port host s

  -- The arguments behind the program's name: a missing one is a null pointer that is followed.
  unfoldable pub connect_main : List (List ℕ) → Io os.World ℕ
  unfolding with_socket
  connect_main [] = stop undefined
  connect_main (host ∷ []) = stop undefined
  connect_main (host ∷ port ∷ more) =
      call (net.socket 2 1 6) >>= with_socket (to_uint (atoi port) % 2 ^ 16) (inet_aton host)
