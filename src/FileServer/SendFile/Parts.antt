-- ===== src/FileServer/SendFile/Parts.antt =====
-- The steps of `send_file` on a healthy machine: each part goes out whole.
use dp.Base.{ℕ, ◌+◌, ◌≤◌, ◌<◌, ◌≡◌, ◌≢◌, ap, ◌∙◌, arith, false, List, length, lt→ltb, ◌==◌}
use dp.Os.Calls.{Fd, Os}
use dp.Os.Io.{Io, ◌>>=◌}
use dp.Sockwrap.Exact.{writen}
use dp.Os.Net.{emit}
use dp.Os.Reliable.{Reliable}
use dp.Sockwrap.Wrap.Laws.{getsockopt_error-Reaches}
use dp.Sockwrap.Exact.Writing.{writen-Gave}
use dp.FileServer.SendFile.{int_limit, if_connected, check_sent, send_part, add_sent, send_piece}

module _ (os : Os) (r : Reliable os) (fuel : ℕ) (connfd : Fd) where
  -- The run `m` from `w` goes on as `next` from some state where `bs` has been written.
  abbrev pub Continues : List ℕ → os.World → Io os.World ℕ → Io os.World ℕ → Type 0
  Continues bs w m next =
      (w' : os.World) × (m w ≡ next w')
      × (r.view w' ≡ emit connfd bs (r.view w))
      × (r.patience w' ≤ r.patience w)

  if_connected-next :
      (next : Io os.World ℕ) (w : os.World)
      → (w' : os.World) × (if_connected os fuel connfd next w ≡ next w')
        × (r.view w' ≡ r.view w)
        × (r.patience w' ≤ r.patience w)
  unfolding if_connected
  if_connected-next next w =
      let (w', run, same, calm) = getsockopt_error-Reaches os r connfd w in (w', rw run, same, calm)

  pub send_part-Continues :
      (bs : List ℕ) (next : ℕ → Io os.World ℕ) (w : os.World)
      → length bs ≢ 9
      → length bs + r.patience w < fuel
      → Continues bs w (send_part os fuel connfd bs next) (next (length bs))
  unfolding send_part
  send_part-Continues bs next w ne h =
      let (w1, healthy, same, calm) =
        if_connected-next (writen os fuel connfd bs >>= check_sent os fuel connfd next) w in
      let (w2, written, moved, calm') = writen-Gave os r fuel connfd bs w1 (omega arith) in
      let whole : (length bs == 9) ≡ false = ground arith in
      (w2, healthy ∙ rw (written, whole), moved ∙ ap (emit connfd bs) same, omega arith)

  pub send_piece-Continues :
      (again : ℕ → ℕ → Io os.World ℕ) (sum : ℕ) (bs : List ℕ) (w : os.World)
      → sum + length bs < int_limit
      → length bs + r.patience w < fuel
      → Continues bs w (send_piece os fuel connfd again sum 0 bs) (again (sum + length bs) 0)
  unfolding send_piece
  send_piece-Continues again sum bs w fits h =
      let (w1, healthy, same, calm) =
        if_connected-next (writen os fuel connfd bs >>= add_sent os fuel connfd again sum 0) w in
      let (w2, written, moved, calm') = writen-Gave os r fuel connfd bs w1 (omega arith) in
      let in_range = lt→ltb (sum + length bs) (int_limit + 0) (omega arith) in
      (w2, healthy ∙ rw (written, in_range), moved ∙ ap (emit connfd bs) same, omega arith)
