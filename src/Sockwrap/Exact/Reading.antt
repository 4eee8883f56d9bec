-- ===== src/Sockwrap/Exact/Reading.antt =====
-- `readn` against the stream that it reads.
use dp.Base.{
  ℕ, zero, suc, ◌+◌, ◌-◌, ◌≤◌, ◌<◌, ◌≡◌, refl, ◌∙◌, ap, ap₂, sym, arith, Option, none, some, List,
  [], ◌∷◌, ◌++◌, length, take, drop, append-nil, append_assoc, take-take-drop,
}
use dp.Os.Calls.{Fd, Os}
use dp.Os.Io.{Io, ok}
use dp.Os.Net.{Net, consume}
use dp.Os.Net.Laws.{consume-zero, consume-consume, consume_end, incoming-consume}
use dp.Os.Reliable.{Reliable}
use dp.Sockwrap.Exact.{readn_round, readn_loop, readn, readn_or_exit}

incoming_after :
    (fd k : ℕ) (s s' : Net) → s' ≡ consume fd k s → s'.incoming fd ≡ drop k (s.incoming fd)
incoming_after fd k s s' e = ap (λ t. t.incoming fd) e ∙ incoming-consume fd k s

-- What was there, the piece that came, and the rest of the bytes asked for.
rejoin :
    (got front stream rest : List ℕ) (n : ℕ)
    → front ≡ take (length front) stream
    → rest ≡ take (n - length front) (drop (length front) stream)
    → length front ≤ n
    → (got ++ front) ++ rest ≡ got ++ take n stream
rejoin got front stream rest n e e' h =
    append_assoc got front rest
    ∙ ap (λ t. got ++ t)
        (ap₂ ◌++◌ e e' ∙ take-take-drop (length front) (n - length front) n stream (omega arith))

module _ (os : Os) (r : Reliable os) where
  -- The run gave back `bs` and took `n` bytes off the stream, and no signal was added.
  abbrev pub Took : Fd → List ℕ → ℕ → os.World → Io os.World (Option (List ℕ)) → Type 0
  Took fd bs n w m =
      (w' : os.World) × (m w ≡ (ok (some bs), w'))
      × (r.view w' ≡ consume fd n (r.view w))
      × (r.patience w' ≤ r.patience w)

  module _ (fuel : ℕ) (fd : Fd) where
    abbrev Enough : Type 0
    Enough =
        (n : ℕ) (got : List ℕ) (w : os.World)
        → n + r.patience w < fuel
        → Took fd (got ++ take n ((r.view w).incoming fd)) n w (readn_loop os fuel fd n got)

    round-Took :
        Enough
        → (n : ℕ) (got : List ℕ) (w : os.World) (o : Option (List ℕ)) → (os.read fd (suc n) w).0 ≡ o
        → suc n + r.patience w < suc fuel
        → (w' : os.World) × (readn_round os
              (readn_loop os fuel fd)
              (suc n)
              got
              o
              (os.read fd (suc n) w).1
            ≡ (ok (some (got ++ take (suc n) ((r.view w).incoming fd))), w'))
          × (r.view w' ≡ consume fd (suc n) (r.view w))
          × (r.patience w' ≤ r.patience w)
    unfolding readn_round
    round-Took ih n got w none e h =
        let (interrupted, same, fewer) = r.read_interrupted fd (suc n) w e in
        let (w', run, net, calm) = ih (suc n) got (os.read fd (suc n) w).1 (omega arith) in
        (w', ground arith, cc, omega arith)
    round-Took ih n got w (some []) e h =
        let (front, short, moved, calm) = r.read_delivers fd (suc n) w [] e in
        let ended = r.read_end fd (suc n) w e (omega arith) in
        let whole : r.view (os.read fd (suc n) w).1 ≡ r.view w =
          moved ∙ consume-zero fd (r.view w) in
        (
          (os.read fd (suc n) w).1,
          rw (ended, append-nil),
          whole ∙ sym (consume_end fd (suc n) (r.view w) ended),
          omega arith,
        )
    round-Took ih n got w (some (b ∷ bs)) e h =
        let (front, short, moved, calm) = r.read_delivers fd (suc n) w (b ∷ bs) e in
        let k : ℕ = length (b ∷ bs) in
        let rest = incoming_after fd k (r.view w) (r.view (os.read fd (suc n) w).1) moved in
        let (w', run, net, calm') =
          ih (suc n - k) (got ++ (b ∷ bs)) (os.read fd (suc n) w).1 (omega arith) in
        (
          w',
          run
              ∙ ap (λ t. (ok (some t), w'))
                  (rejoin got (b ∷ bs) _ _ (suc n) front (ap (take (suc n - k)) rest)
                    (omega arith)),
          net
              ∙ ap (consume fd (suc n - k)) moved
              ∙ consume-consume fd k (suc n - k) (suc n) (r.view w) (omega arith),
          omega arith,
        )

    Enough-step :
        Enough
        → (n : ℕ) (got : List ℕ) (w : os.World) → n + r.patience w < suc fuel
        → Took fd (got ++ take n ((r.view w).incoming fd)) n w (readn_loop os (suc fuel) fd n got)
    unfolding readn_loop
    Enough-step ih zero got w h = (w, rw append-nil, sym (consume-zero fd (r.view w)), omega arith)
    Enough-step ih (suc n) got w h = round-Took ih n got w (os.read fd (suc n) w).0 refl h

  readn_loop-Took : (fuel : ℕ) (fd : Fd) → Enough fuel fd
  readn_loop-Took zero fd n got w h = absurd (omega arith)
  readn_loop-Took (suc fuel) fd n got w h = Enough-step fuel fd (readn_loop-Took fuel fd) n got w h

  -- With more fuel than bytes and interruptions to come, however the system cuts the stream into
  -- pieces and whichever calls a signal interrupts, `readn`
  -- returns the next `n` bytes, or all that is left before the end of the stream, and takes just
  -- those off the stream.
  pub readn-Took :
      (fuel : ℕ) (fd : Fd) (n : ℕ) (w : os.World)
      → n + r.patience w < fuel
      → Took fd (take n ((r.view w).incoming fd)) n w (readn os fuel fd n)
  unfolding readn
  readn-Took fuel fd n w h = readn_loop-Took fuel fd n [] w h

  -- `Readn`, which ends the process on an error, meets none here.
  pub readn_or_exit-Took :
      (fuel : ℕ) (fd : Fd) (n : ℕ) (w : os.World)
      → n + r.patience w < fuel
      → (w' : os.World) × (readn_or_exit os fuel fd n w
          ≡ (ok (take n ((r.view w).incoming fd)), w'))
        × (r.view w' ≡ consume fd n (r.view w))
        × (r.patience w' ≤ r.patience w)
  unfolding readn_or_exit
  readn_or_exit-Took fuel fd n w h =
      let (w', run, moved, calm) = readn-Took fuel fd n w h in (w', rw run, moved, calm)
