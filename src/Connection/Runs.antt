-- ===== src/Connection/Runs.antt =====
-- A network on which the first result cannot be opened.
use dp.Base.{ℕ, ◌+◌, ◌==◌, refl, true, none, some, [], ◌∷◌, if◌then◌else◌}
use dp.Sockwrap.Setup.{AddrInfo, Network}
use dp.Connection.{init_connection_udp}
use dp.Connection.FirstOpen.{Walks, init_connection_udp-Walks}

abbrev info : ℕ → AddrInfo
info family = record {
  ai_family = family;
  ai_socktype = 2;
  ai_protocol = 17;
  ai_addr = [];
  ai_addrlen = 28;
}

-- Sockets of family 10 only; the state counts the calls.
abbrev ipv6_only : Network ℕ
ipv6_only = record {
  getaddrinfo = λ node service hints w. (some (info 2 ∷ info 10 ∷ []), w + 1);
  socket = λ family socktype protocol w. (if family == 10 then some 3 else none, w + 1);
  bind = λ fd addr addrlen w. (true, w + 1);
  listen = λ fd backlog w. (true, w + 1);
  connect = λ fd addr addrlen w. (true, w + 1);
  listenq = λ w. none;
}

init_connection_udp-Walks_example :
    Walks ipv6_only
      (info 2 ∷ info 10 ∷ [])
      1
      (init_connection_udp ipv6_only (b'h' ∷ []) (b'1' ∷ []) 0)
init_connection_udp-Walks_example =
    init_connection_udp-Walks ipv6_only (b'h' ∷ []) (b'1' ∷ []) (info 2) (info 10 ∷ []) 0 refl
