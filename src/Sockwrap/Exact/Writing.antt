-- ===== src/Sockwrap/Exact/Writing.antt =====
-- `writen` against the stream that it writes.
use dp.Base.{
  ℕ, zero, suc, ◌+◌, ◌≤◌, ◌<◌, ◌≡◌, ==_self, ◌≢◌, refl, ◌∙◌, ap, sym, arith, Option, none, some,
  List, [], ◌∷◌, length, take, drop, take-append-drop, length-drop,
}
use dp.Os.Calls.{msg_nosignal, Fd, Os}
use dp.Os.Io.{Io, ok}
use dp.Os.Net.{emit}
use dp.Os.Net.Laws.{emit-nil, emit-emit}
use dp.Os.Reliable.{Reliable, Interrupted}
use dp.Sockwrap.Exact.{writen_round, put_loop, writen, sendn, or_exit_count, writen_or_exit}

module _ (os : Os) (r : Reliable os) where
  -- The run gave back `a` and wrote `bs`, and no signal was added.
  abbrev pub Gave : {A : Type 0} → Fd → List ℕ → A → os.World → Io os.World A → Type 0
  Gave fd bs a w m =
      (w' : os.World) × (m w ≡ (ok a, w'))
      × (r.view w' ≡ emit fd bs (r.view w))
      × (r.patience w' ≤ r.patience w)

  module _ (put : List ℕ → os.World → Option ℕ × os.World) (fd : Fd)
      (interrupts : (bs : List ℕ) (w : os.World)
        → (put bs w).0 ≡ none
        → Interrupted
            (os.errno (put bs w).1)
            (r.view w)
            (r.view (put bs w).1)
            (r.patience w)
            (r.patience (put bs w).1))
      (accepts : (bs : List ℕ) (w : os.World) (k : ℕ)
        → (put bs w).0 ≡ some k
        → (bs ≢ [] → 0 < k)
          × (k ≤ length bs)
          × (r.view (put bs w).1 ≡ emit fd (take k bs) (r.view w))
          × (r.patience (put bs w).1 ≤ r.patience w)) where
    module _ (fuel : ℕ) (total : ℕ) where
      abbrev Enough : Type 0
      Enough =
          (bs : List ℕ) (w : os.World)
          → length bs + r.patience w < fuel
          → Gave fd bs (some total) w (put_loop os put fuel total bs)

      round-Gave :
          Enough
          → (b : ℕ) (bs : List ℕ) (w : os.World) (o : Option ℕ) → (put (b ∷ bs) w).0 ≡ o
          → length (b ∷ bs) + r.patience w < suc fuel
          → (w' : os.World) × (writen_round os
                (put_loop os put fuel total)
                total
                (b ∷ bs)
                o
                (put (b ∷ bs) w).1
              ≡ (ok (some total), w'))
            × (r.view w' ≡ emit fd (b ∷ bs) (r.view w))
            × (r.patience w' ≤ r.patience w)
      unfolding writen_round
      round-Gave ih b bs w none e h =
          let (interrupted, same, fewer) = interrupts (b ∷ bs) w e in
          let (w', run, net, calm) = ih (b ∷ bs) (put (b ∷ bs) w).1 (omega arith) in
          (w', ground arith, cc, omega arith)
      round-Gave ih b bs w (some zero) e h =
          let (progress, short, moved, calm) = accepts (b ∷ bs) w 0 e in
          absurd (omega (arith, progress (λ p. cc)))
      round-Gave ih b bs w (some (suc k)) e h =
          let (progress, short, moved, calm) = accepts (b ∷ bs) w (suc k) e in
          let left : List ℕ = drop (suc k) (b ∷ bs) in
          let (w', run, net, calm') =
            ih left (put (b ∷ bs) w).1 (omega (arith, length-drop (suc k) (b ∷ bs))) in
          (
            w',
            run,
            net
                ∙ ap (emit fd left) moved
                ∙ emit-emit fd (take (suc k) (b ∷ bs)) left (r.view w)
                ∙ ap (λ t. emit fd t (r.view w)) (take-append-drop (suc k) (b ∷ bs)),
            omega arith,
          )

      Enough-step :
          Enough
          → (bs : List ℕ) (w : os.World) → length bs + r.patience w < suc fuel
          → Gave fd bs (some total) w (put_loop os put (suc fuel) total bs)
      unfolding put_loop
      Enough-step ih [] w h = (w, refl, sym (emit-nil fd (r.view w)), omega arith)
      Enough-step ih (b ∷ bs) w h = round-Gave ih b bs w (put (b ∷ bs) w).0 refl h

    put_loop-Gave : (fuel : ℕ) (total : ℕ) → Enough fuel total
    put_loop-Gave zero total bs w h = absurd (omega arith)
    put_loop-Gave (suc fuel) total bs w h = Enough-step fuel total (put_loop-Gave fuel total) bs w h

  -- With more fuel than bytes and interruptions to come, however few bytes a `write` takes and
  -- whichever calls a signal interrupts, `writen` writes
  -- exactly the bytes of the buffer, in order, and returns their number.
  pub writen-Gave :
      (fuel : ℕ) (fd : Fd) (bs : List ℕ) (w : os.World)
      → length bs + r.patience w < fuel
      → Gave fd bs (some (length bs)) w (writen os fuel fd bs)
  unfolding writen
  writen-Gave fuel fd bs w h =
      put_loop-Gave (os.write fd) fd (r.write_interrupted fd) (r.write_accepts fd) fuel (length bs)
        bs w h

  -- The same of `sendn` and `send`, with the flag that the programs give.
  pub sendn-Gave :
      (fuel : ℕ) (fd : Fd) (bs : List ℕ) (w : os.World)
      → length bs + r.patience w < fuel
      → Gave fd bs (some (length bs)) w (sendn os fuel fd bs msg_nosignal)
  unfolding sendn
  sendn-Gave fuel fd bs w h =
      put_loop-Gave (λ left. os.send fd left msg_nosignal) fd (r.send_interrupted fd)
        (r.send_accepts fd) fuel (length bs) bs w h

  -- `Writen`, which ends the process unless all was written, meets no error here.
  pub writen_or_exit-Gave :
      (fuel : ℕ) (fd : Fd) (bs : List ℕ) (w : os.World)
      → length bs + r.patience w < fuel
      → Gave fd bs tt w (writen_or_exit os fuel fd bs)
  unfolding writen_or_exit or_exit_count
  writen_or_exit-Gave fuel fd bs w h =
      let (w', run, net, calm) = writen-Gave fuel fd bs w h in
      (w', rw (run, ==_self (length bs)) refl, net, calm)
