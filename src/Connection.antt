-- ===== src/Connection.antt =====
-- lab3/es3/lib_server.c and lab3/es2/lib.c: the sockets of the file server and of its client.
pub mod FirstOpen
mod Runs
use dp.Base.{ℕ, Option, none, some, List, [], ◌∷◌}
use dp.Os.Calls.{Fd}
use dp.Os.Io.{Io, undefined, pure, stop, call, ◌>>=◌, ◌>>◌}
use dp.Errlib.{err_sys}
use dp.Sockwrap.Setup
use dp.Sockwrap.Setup.{AddrInfo, Hints, Network}

-- Constants of <sys/socket.h> and <netdb.h>.
abbrev pub af_unspec : ℕ
af_unspec = 0

abbrev pub sock_stream : ℕ
sock_stream = 1

abbrev pub sock_dgram : ℕ
sock_dgram = 2

abbrev pub ai_passive : ℕ
ai_passive = 1

abbrev pub ai_numerichost : ℕ
ai_numerichost = 4

-- `sizeof(struct sockaddr)`
abbrev pub sockaddr_size : ℕ
sockaddr_size = 16

module _ {W : Type 0} (net : Network W) where
  -- The first result; without one, a null pointer is followed.
  unfoldable pub first_info : List AddrInfo → Io W AddrInfo
  first_info [] = stop undefined
  first_info (res ∷ infos) = pure res

  unfoldable pub init_server_tcp : List ℕ → Io W Fd
  unfolding first_info
  init_server_tcp port = do
    infos ←
        Setup.getaddrinfo net none (some port)
          (record { family = af_unspec; socktype = sock_stream; flags = ai_passive })
    res ← first_info infos
    sockfd ← Setup.socket net res.ai_family res.ai_socktype res.ai_protocol
    Setup.bind net sockfd res.ai_addr res.ai_addrlen
    Setup.listen net sockfd 10
    pure sockfd

  -- An argument may be a null pointer. The length that is passed to `Connect` is not the one of the
  -- address.
  unfoldable pub init_connection_tcp : Option (List ℕ) → Option (List ℕ) → Io W Fd
  unfolding first_info
  init_connection_tcp address port = do
    infos ←
        Setup.getaddrinfo net address port
          (record { family = af_unspec; socktype = sock_stream; flags = ai_numerichost })
    res ← first_info infos
    sockfd ← Setup.socket net res.ai_family res.ai_socktype res.ai_protocol
    Setup.connect net sockfd res.ai_addr sockaddr_size
    pure sockfd

  -- What the body of the loop does with the result of `socket`, where `again` goes on.
  unfoldable pub take_socket : Io W (Fd × ℕ) → AddrInfo → Option Fd → Io W (Fd × ℕ)
  take_socket again res none = again
  take_socket again res (some sockfd) = pure (sockfd, res.ai_addrlen)

  -- `do … while ((res = res->ai_next) != NULL)`, behind the first result
  unfoldable pub try_infos : List AddrInfo → Io W (Fd × ℕ)
  unfolding take_socket
  try_infos [] w = err_sys w
  try_infos (res ∷ infos) w =
      (call (net.socket res.ai_family res.ai_socktype res.ai_protocol)
          >>= take_socket (try_infos infos) res)
        w

  unfoldable pub open_first : List AddrInfo → Io W (Fd × ℕ)
  unfolding try_infos
  open_first [] = stop undefined
  open_first (res ∷ infos) = try_infos (res ∷ infos)

  -- The descriptor, and what is stored behind `addrlenp`.
  unfoldable pub init_connection_udp : List ℕ → List ℕ → Io W (Fd × ℕ)
  unfolding open_first
  init_connection_udp address port =
      Setup.getaddrinfo net (some address) (some port)
        (record { family = af_unspec; socktype = sock_dgram; flags = 0 })
      >>= open_first
