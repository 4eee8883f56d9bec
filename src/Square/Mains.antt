-- ===== src/Square/Mains.antt =====
-- The `main` functions of the square servers and clients over UDP: the port, the socket, the loop.
use dp.Base.{ℕ, Option, none, some, List, [], ◌∷◌}
use dp.Os.Calls.{Fd, Os}
use dp.Os.Io.{Io, undefined, pure, stop, ◌>>=◌}
use dp.Errlib.{err_sys}
use dp.Sockwrap.Setup.{Network}
use dp.SumServer.Decimal.{Scan, no_number, unfit, number, scan_ushort}
use dp.Square.Xdr.{HyperCodec, SequenceCodec}
use dp.Square.Udp.{Address, Udp, Heap}
use dp.Square.Simple.{udp_server_init, udp_client_init, serve}
use dp.Square.Sequences.{serve_keeping, serve_freeing, serve_static}
use dp.Square.Client.{Printed, simple_client, one_client, two_client, static_client}

abbrev pub default_port : ℕ
default_port = 2050

unfoldable pub port_scanned : {W : Type 0} → Scan → Io W ℕ
port_scanned no_number = pure default_port
port_scanned unfit = stop undefined
port_scanned (number port rest) = pure port

-- The arguments behind the program's name. The server looks at its first argument only if there is
-- a second one.
unfoldable pub server_port : {W : Type 0} → List (List ℕ) → Io W ℕ
unfolding port_scanned
server_port [] = pure default_port
server_port (port ∷ []) = pure default_port
server_port (port ∷ other ∷ more) = port_scanned (scan_ushort port)

unfoldable pub client_port : {W : Type 0} → List (List ℕ) → Io W ℕ
unfolding port_scanned
client_port [] = pure default_port
client_port (host ∷ []) = pure default_port
client_port (host ∷ port ∷ more) = port_scanned (scan_ushort port)

-- `inet_aton` is a parameter, and so are the bytes of a socket address.
unfoldable pub parsed_or : Option (List ℕ) → Option (List ℕ) → Option (List ℕ)
parsed_or default none = default
parsed_or default (some host) = some host

unfoldable pub client_host : (List ℕ → Option (List ℕ)) → List ℕ → List (List ℕ) → Option (List ℕ)
unfolding parsed_or
client_host inet_aton default [] = inet_aton default
client_host inet_aton default (host ∷ more) = parsed_or (inet_aton default) (inet_aton host)

module _ {W : Type 0} (udp : Udp W) (net : Network W) (any_address : ℕ → Address) where
  unfoldable pub bound_server : (Fd → ℕ → Io W (Unit {0})) → List (List ℕ) → ℕ → Io W (Unit {0})
  unfolding server_port udp_server_init
  bound_server loop args turns = do
    port ← server_port args
    s ← udp_server_init net (any_address port)
    loop s turns

  -- 1-SquareSimple
  unfoldable pub simple_main : HyperCodec → List (List ℕ) → ℕ → Io W (Unit {0})
  unfolding bound_server serve
  simple_main codec args turns = bound_server (serve codec udp) args turns

  -- 2-SquareSequencesAllocNoFree
  unfoldable pub keeping_main : SequenceCodec → Heap W → List (List ℕ) → ℕ → Io W (Unit {0})
  unfolding bound_server serve_keeping
  keeping_main codec heap args turns = bound_server (λ s. serve_keeping codec udp s heap) args turns

  -- 3-SquareSequencesAlloc
  unfoldable pub freeing_main : SequenceCodec → Heap W → List (List ℕ) → ℕ → Io W (Unit {0})
  unfolding bound_server serve_freeing
  freeing_main codec heap args turns = bound_server (λ s. serve_freeing codec udp s heap) args turns

  -- 4-SquareSequences
  unfoldable pub static_main : SequenceCodec → List (List ℕ) → ℕ → Io W (Unit {0})
  unfolding bound_server serve_static
  static_main codec args turns = bound_server (serve_static codec udp) args turns

module _ (os : Os) (net : Network os.World) (inet_aton : List ℕ → Option (List ℕ))
    (default : List ℕ) (address : ℕ → List ℕ → Address) where
  unfoldable pub with_host :
      (Fd → ℕ → Io os.World (List Printed)) → ℕ → ℕ → Option (List ℕ) → Io os.World (List Printed)
  unfolding udp_client_init
  with_host loop port turns none = err_sys
  with_host loop port turns (some host) =
      udp_client_init net (address port host) >>= λ s. loop s turns

  unfoldable pub connected_client :
      (Fd → ℕ → Io os.World (List Printed)) → List (List ℕ) → ℕ → Io os.World (List Printed)
  unfolding client_port client_host with_host
  connected_client loop args turns =
      client_port args >>= λ port. with_host loop port turns (client_host inet_aton default args)

  -- 1-SquareSimple
  unfoldable pub simple_client_main : HyperCodec → List (List ℕ) → ℕ → Io os.World (List Printed)
  unfolding connected_client simple_client
  simple_client_main codec args turns = connected_client (simple_client os codec) args turns

  -- 2-SquareSequencesAllocNoFree
  unfoldable pub one_client_main :
      SequenceCodec → Heap os.World → List (List ℕ) → ℕ → Io os.World (List Printed)
  unfolding connected_client one_client
  one_client_main codec heap args turns =
      connected_client (λ s. one_client os codec s heap) args turns

  -- 3-SquareSequencesAlloc
  unfoldable pub two_client_main :
      SequenceCodec → Heap os.World → List (List ℕ) → ℕ → Io os.World (List Printed)
  unfolding connected_client two_client
  two_client_main codec heap args turns =
      connected_client (λ s. two_client os codec s heap) args turns

  -- 4-SquareSequences
  unfoldable pub static_client_main : SequenceCodec → List (List ℕ) → ℕ → Io os.World (List Printed)
  unfolding connected_client static_client
  static_client_main codec args turns = connected_client (static_client os codec) args turns
