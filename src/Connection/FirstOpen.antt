-- ===== src/Connection/FirstOpen.antt =====
-- Which of the results of `getaddrinfo` the client of UDP takes.
use dp.Base.{ℕ, ◌≡◌, refl, Option, none, some, List, [], ◌∷◌, inl, inr, Option-cases}
use dp.Os.Calls.{Fd}
use dp.Os.Io.{Result, ok, exit}
use dp.Sockwrap.Setup
use dp.Sockwrap.Setup.{AddrInfo, Hints, Network}
use dp.Connection.{af_unspec, sock_dgram, take_socket, try_infos, open_first, init_connection_udp}

module _ {W : Type 0} (net : Network W) where
  -- One call of `socket` for a result.
  abbrev pub attempt : AddrInfo → W → Option Fd × W
  attempt res w = net.socket res.ai_family res.ai_socktype res.ai_protocol w

  -- A walk along the results, up to the first one for which a socket can be had.
  pub data Walk : List AddrInfo → W → Option (AddrInfo × Fd) → W → Type 0 where
    nothing_left : {w : W} → Walk [] w none w
    here :
        {res : AddrInfo} {infos : List AddrInfo} {w : W} {fd : Fd}
        → (attempt res w).0 ≡ some fd
        → Walk (res ∷ infos) w (some (res, fd)) (attempt res w).1
    further :
        {res : AddrInfo} {infos : List AddrInfo} {w w' : W} {o : Option (AddrInfo × Fd)}
        → (attempt res w).0 ≡ none
        → Walk infos (attempt res w).1 o w'
        → Walk (res ∷ infos) w o w'

  -- What is returned at the end of the walk.
  abbrev pub at_walk_end : Option (AddrInfo × Fd) → W → Result (Fd × ℕ) × W
  at_walk_end none w = (exit 1, w)
  at_walk_end (some found) w = (ok (found.1, found.0.ai_addrlen), w)

  abbrev pub Walks : List AddrInfo → W → Result (Fd × ℕ) × W → Type 0
  Walks infos w run =
      (o : Option (AddrInfo × Fd)) × (w' : W) × Walk infos w o w' × (run ≡ at_walk_end o w')

  try_infos-Walks : (infos : List AddrInfo) (w : W) → Walks infos w (try_infos net infos w)
  unfolding try_infos
  try_infos-Walks [] w = (none, w, nothing_left, refl)
  try_infos-Walks (res ∷ infos) w = elim (Option-cases (attempt res w).0) [
    | inl failed ↦
        let (o, w', walk, run) = try_infos-Walks infos (attempt res w).1 in
        (o, w', further failed walk, unfold take_socket in rw failed run)
    | inr (fd, opened) ↦
        (some (res, fd), (attempt res w).1, here opened, unfold take_socket in rw opened refl)
  ]

  -- If the address is resolved, the descriptor and the length are those of the first result for which
  -- `socket` succeeds, and no result after it is tried; if it fails for all, the process ends with
  -- status 1.
  pub init_connection_udp-Walks :
      (address port : List ℕ) (res : AddrInfo) (infos : List AddrInfo) (w : W)
      → (net.getaddrinfo
          (some address)
          (some port)
          (record { family = af_unspec; socktype = sock_dgram; flags = 0 })
          w).0
        ≡ some (res ∷ infos)
      → Walks
          (res ∷ infos)
          (net.getaddrinfo
            (some address)
            (some port)
            (record { family = af_unspec; socktype = sock_dgram; flags = 0 })
            w).1
          (init_connection_udp net address port w)
  unfolding init_connection_udp
  init_connection_udp-Walks address port res infos w resolved =
      let asked : Hints = record { family = af_unspec; socktype = sock_dgram; flags = 0 } in
      unfold Setup.getaddrinfo Setup.check_infos open_first in
      rw resolved
        (try_infos-Walks (res ∷ infos) (net.getaddrinfo (some address) (some port) asked w).1)
