-- ===== src/Sockwrap/Wrap/Laws.antt =====
-- The wrappers on a healthy machine.
use dp.Base.{
  ℕ, zero, suc, ◌≤◌, ◌<◌, ◌≡◌, ◌≢◌, refl, sym, ◌∙◌, ap, arith, Option, none, some, List, [], length,
  take, ap₂, take_all, inl, inr, Option-cases,
}
use dp.Os.Calls.{Os}
use dp.Os.Io.{Io, ok}
use dp.Os.Net.{Net, consume, shut}
use dp.Os.Reliable.{Reliable, OnePiece}
use dp.Sockwrap.Wrap.{retry_read, read, close, getsockopt_error}

module _ (os : Os) (r : Reliable os) where
  -- The run gave back `bs`, at most `n` of the next bytes of the stream, and none only at its end.
  pub record Delivered (fd n : ℕ) (bs : List ℕ) (w w' : os.World) : Type 0 where
    pub front : bs ≡ take (length bs) ((r.view w).incoming fd)
    pub short : length bs ≤ n
    pub moved : r.view w' ≡ consume fd (length bs) (r.view w)
    pub progress : n ≢ 0 → bs ≡ [] → (r.view w).incoming fd ≡ []
    pub calm : r.patience w' ≤ r.patience w

  -- A read from a state with the same streams as `v`.
  pub Delivered-start :
      (fd n : ℕ) (bs : List ℕ) (v w w' : os.World)
      → r.view w ≡ r.view v
      → r.patience w ≤ r.patience v
      → Delivered fd n bs w w'
      → Delivered fd n bs v w'
  Delivered-start fd n bs v w w' same calm d =
      let there = ap (λ (t : Net). t.incoming fd) same in
      record {
        front = d.front ∙ ap (take (length bs)) there;
        short = d.short;
        moved = d.moved ∙ ap (consume fd (length bs)) same;
        progress = λ nz nil. sym there ∙ d.progress nz nil;
        calm = omega (arith, d.calm);
      }

  abbrev pub Delivers : ℕ → ℕ → os.World → Io os.World (List ℕ) → Type 0
  Delivers fd n w m = (bs : List ℕ) × (w' : os.World) × (m w ≡ (ok bs, w')) × Delivered fd n bs w w'

  abbrev IhRead : ℕ → ℕ → ℕ → Type 0
  IhRead fuel fd n = (w : os.World) → r.patience w < fuel → Delivers fd n w (read os fuel fd n)

  retry_read-Delivers :
      (fuel fd n : ℕ) (w : os.World) (o : Option (List ℕ))
      → (os.read fd n w).0 ≡ o
      → IhRead fuel fd n
      → r.patience w < suc fuel
      → (bs : List ℕ) × (w' : os.World) × (retry_read os (read os fuel fd n) o (os.read fd n w).1
          ≡ (ok bs, w'))
        × Delivered fd n bs w w'
  unfolding retry_read
  retry_read-Delivers fuel fd n w none e ih h =
      let (interrupted, same, fewer) = r.read_interrupted fd n w e in
      let (bs, w', run, d) = ih (os.read fd n w).1 (omega arith) in
      (bs, w', ground arith, Delivered-start fd n bs w _ w' same (omega arith) d)
  retry_read-Delivers fuel fd n w (some bs) e ih h =
      let (front, short, moved, calm) = r.read_delivers fd n w bs e in
      (
        bs,
        (os.read fd n w).1,
        refl,
        record {
          front = front;
          short = short;
          moved = moved;
          progress = λ nz nil. r.read_end fd n w (e ∙ ap some nil) nz;
          calm = calm;
        },
      )

  -- With more fuel than interruptions to come, `Read` returns the next bytes of the stream, at most as
  -- many as were asked for, and no bytes only at its end or when none were asked for.
  pub read-Delivers :
      (fuel fd n : ℕ) (w : os.World) → r.patience w < fuel → Delivers fd n w (read os fuel fd n)
  unfolding read
  read-Delivers zero fd n w h = absurd (omega arith)
  read-Delivers (suc fuel) fd n w h =
      retry_read-Delivers fuel fd n w (os.read fd n w).0 refl (read-Delivers fuel fd n) h

  -- A call that leaves the streams as `s`.
  abbrev pub Reaches : {A : Type 0} → A → Net → os.World → Io os.World A → Type 0
  Reaches a s w m =
      (w' : os.World) × (m w ≡ (ok a, w')) × (r.view w' ≡ s) × (r.patience w' ≤ r.patience w)

  pub close-Reaches : (fd : ℕ) (w : os.World) → Reaches tt (shut fd (r.view w)) w (close os fd)
  unfolding close
  close-Reaches fd w =
      let (done, moved, calm) = r.close_lem fd w in ((os.close fd w).1, rw done, moved, calm)

  pub getsockopt_error-Reaches :
      (fd : ℕ) (w : os.World) → Reaches 0 (r.view w) w (getsockopt_error os fd)
  unfolding getsockopt_error
  getsockopt_error-Reaches fd w =
      let (none_pending, same, calm) = r.so_error_lem fd w in
      ((os.so_error fd w).1, rw none_pending, same, calm)

  -- Where the messages arrive in one piece, `Read` delivers what has come, if it fits.
  pub read_all-Reaches :
      (fuel fd n : ℕ) (w : os.World)
      → OnePiece os r fd
      → length ((r.view w).incoming fd) ≤ n
      → r.patience w < fuel
      → Reaches
          ((r.view w).incoming fd)
          (consume fd (length ((r.view w).incoming fd)) (r.view w))
          w
          (read os fuel fd n)
  unfolding read
  read_all-Reaches zero fd n w whole fits h = absurd (omega arith)
  read_all-Reaches (suc fuel) fd n w whole fits h = elim (Option-cases (os.read fd n w).0) [
    | inl e ↦
        let (interrupted, same, fewer) = r.read_interrupted fd n w e in
        let there = ap (λ (t : Net). t.incoming fd) same in
        let (w', run, moved, calm) =
          read_all-Reaches fuel fd n (os.read fd n w).1 whole (omega (arith, ap length there))
            (omega arith) in
        (
          w',
          unfold retry_read in rw (e, interrupted) (run ∙ ap (λ bs. (ok bs, w')) there),
          moved ∙ ap₂ (λ k. consume fd k) (ap length there) same,
          omega arith,
        )
    | inr (bs, e) ↦
        let (front, short, moved, calm) = r.read_delivers fd n w bs e in
        let all : bs ≡ (r.view w).incoming fd =
          front ∙ take_all (length bs) ((r.view w).incoming fd) (whole n w bs e fits) in
        (
          (os.read fd n w).1,
          unfold retry_read in rw e (ap (λ t. (ok t, (os.read fd n w).1)) all),
          moved ∙ ap (λ t. consume fd (length t) (r.view w)) all,
          calm,
        )
  ]
