-- ===== src/FileServer/SendFile/Loop.antt =====
-- The loop of `send_file` on a healthy machine.
use dp.Base.{
  ℕ, zero, suc, ◌+◌, ◌-◌, ◌≤◌, ◌<◌, ◌≡◌, refl, sym, ap, ◌∙◌, arith, List, length, min, take, ltb,
  ltb→lt, inl, inr, Bool-cases, length-take, take-min,
}
use dp.Os.Calls.{Fd, Os}
use dp.Os.Io.{Io, ok, ◌>>=◌}
use dp.Os.Net.{emit, consume}
use dp.Os.Net.Laws.{consume-min}
use dp.Os.Net.Relay.{relayed, relayed-relayed, relayed-zero, length-relayed}
use dp.Os.Reliable.{Reliable}
use dp.Sockwrap.Exact.{readn_or_exit}
use dp.Sockwrap.Exact.Reading.{readn_or_exit-Took}
use dp.FileServer.SendFile.{int_limit, piece_size, send_piece, send_loop}
use dp.FileServer.SendFile.Parts.{send_piece-Continues}
use dp.FileServer.SendFile.Kept.{kept, kept_short, kept_step}

module _ (os : Os) (r : Reliable os) (fuel : ℕ) (connfd fd : Fd) (size buflen : ℕ) where
  -- A run that ends with 1 and has relayed `n` bytes.
  abbrev pub Relays : ℕ → os.World → Io os.World ℕ → Type 0
  Relays n w m =
      (w' : os.World) × (m w ≡ (ok 1, w'))
      × (r.view w' ≡ relayed fd connfd n (r.view w))
      × (r.patience w' ≤ r.patience w)

  -- One round reads a piece and passes it on.
  round :
      (again : ℕ → ℕ → Io os.World ℕ) (sum left k : ℕ) (w : os.World)
      → length ((r.view w).incoming fd) ≡ left
      → left ≤ size
      → k ≡ min buflen left
      → sum + k < int_limit
      → buflen + r.patience w < fuel
      → (w' : os.World) × ((readn_or_exit os fuel fd (piece_size size buflen)
              >>= send_piece os fuel connfd again sum 0)
            w
          ≡ again (sum + k) 0 w')
        × (r.view w' ≡ relayed fd connfd k (r.view w))
        × (r.patience w' ≤ r.patience w)
  unfolding piece_size
  round again sum left k w here fits ek range enough =
      let stream : List ℕ = (r.view w).incoming fd in
      let n : ℕ = piece_size size buflen in
      let short : n ≤ buflen = ground arith in
      let cut : k ≡ min n (length stream) = ground arith in
      let bytes : take n stream ≡ take k stream = take-min n k stream cut in
      let count : length (take n stream) ≡ k = omega (arith, length-take n stream) in
      let (w1, got, moved, calm) = readn_or_exit-Took os r fuel fd n w (omega arith) in
      let (w2, went, moved', calm') =
        send_piece-Continues os r fuel connfd again sum (take n stream) w1 (omega arith)
          (omega arith) in
      (
        w2,
        rw got (went ∙ ap (λ t. again (sum + t) 0 w2) count),
        moved'
            ∙ ap (emit connfd (take n stream)) (moved ∙ consume-min fd n k (r.view w) cut)
            ∙ ap (λ t. emit connfd t (consume fd k (r.view w))) bytes,
        omega arith,
      )

  pub send_loop-Relays :
      (rounds sum left : ℕ) (w : os.World)
      → length ((r.view w).incoming fd) ≡ left
      → sum + left ≡ 13 + size
      → left ≤ size
      → 13 < buflen
      → 13 + size < int_limit
      → left < rounds
      → buflen + r.patience w < fuel
      → Relays (kept left buflen) w (send_loop os fuel connfd fd size buflen rounds sum 0)
  unfolding send_loop
  send_loop-Relays zero sum left w here total fits big range h enough = absurd (omega arith)
  send_loop-Relays (suc rounds) sum left w here total fits big range h enough =
      elim (Bool-cases (ltb sum (size + 0))) [
        | inl more ↦
            let low : sum < size + 0 = ltb→lt sum (size + 0) more in
            let k : ℕ = min buflen left in
            let (w1, step, moved, calm) =
              round (send_loop os fuel connfd fd size buflen rounds) sum left k w here fits refl
                (omega arith) enough in
            let (w2, run, moved', calm') =
              send_loop-Relays rounds (sum + k) (left - k) w1
                (length-relayed fd connfd k left (r.view w) (r.view w1) here moved) (omega arith)
                (omega arith) big range (omega arith) (omega arith) in
            (
              w2,
              rw more (step ∙ run),
              moved'
                  ∙ relayed-relayed fd connfd k _ _ (r.view w) (r.view w1) moved
                      (kept_step left buflen k (omega arith) big refl),
              omega arith,
            )
        | inr done ↦
            let none_kept : kept left buflen ≡ 0 = kept_short left buflen (ground arith) big in
            (
              w,
              rw done,
              sym (
                  ap (λ n. relayed fd connfd n (r.view w)) none_kept
                  ∙ relayed-zero fd connfd (r.view w)),
              omega arith,
            )
      ]
