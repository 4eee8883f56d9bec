-- ===== src/FileClient/Receive/Loop.antt =====
-- The loop of `receive_file` on a healthy machine: where the stream holds what was announced, and
-- where it ends before.
use dp.Base.{
  ℕ, zero, suc, ◌+◌, ◌-◌, ◌%◌, ◌≤◌, ◌<◌, ◌≡◌, ◌≢◌, refl, sym, ap, ap₂, ◌∙◌, arith, true, List, [],
  ◌∷◌, length, lt→ltb, le→not_ltb, ==_self, take_all, length-take,
}
use dp.Base.Words.{u32_mod}
use dp.Os.Calls.{Fd, Os}
use dp.Os.Io.{Io, Result, ok, out_of_fuel, ◌>>=◌}
use dp.Os.Net.{emit}
use dp.Os.Net.Laws.{is_file-consume}
use dp.Os.Net.Relay.{relayed, relayed-relayed, relayed-zero, length-relayed, is_file-relayed}
use dp.Os.Reliable.{Reliable}
use dp.Sockwrap.Wrap
use dp.Sockwrap.Wrap.{check_count}
use dp.Sockwrap.Wrap.Laws.{read-Delivers}
use dp.FileClient.Receive.{to_read, store_piece, receive_loop}

nil_of_length : (xs : List ℕ) → length xs ≡ 0 → xs ≡ []
nil_of_length [] e = refl
nil_of_length (x ∷ xs) e = absurd (omega arith)

pos_of_pos : (k m : ℕ) → (k ≡ 0 → m ≡ 0) → 0 < m → 0 < k
pos_of_pos zero m h pos = absurd (omega (arith, h refl))
pos_of_pos (suc k) m h pos = omega arith

to_read-ne-zero : (dim buflen : ℕ) → 0 < dim → 0 < buflen → to_read dim buflen ≢ 0
unfolding to_read
to_read-ne-zero dim buflen h h' = ground arith

module _ (os : Os) (r : Reliable os) (fuel : ℕ) (sockfd : Fd) (buflen : ℕ) (fd : Fd) (dim : ℕ) where
  -- A write to a file takes all.
  write_file :
      (bs : List ℕ) (w : os.World)
      → (r.view w).is_file fd ≡ true
      → (w' : os.World) × (Wrap.write os fd bs w ≡ (ok tt, w'))
        × (r.view w' ≡ emit fd bs (r.view w))
        × (r.patience w' ≤ r.patience w)
  unfolding Wrap.write
  write_file bs w file =
      let taken = r.file_write_lem fd bs w file in
      let (progress, short, moved, calm) = r.write_accepts fd bs w (length bs) taken in
      (
        (os.write fd bs w).1,
        rw taken (rw ==_self),
        moved ∙ ap (λ t. emit fd t (r.view w)) (take_all (length bs) bs (omega arith)),
        calm,
      )

  -- One round saves the piece that was read.
  module _ (again : ℕ → Io os.World (Unit {0})) (tot : ℕ) (w : os.World) where
    round-saves :
        (n : ℕ)
        → (r.view w).is_file fd ≡ true
        → r.patience w < fuel
        → (bs : List ℕ) × (w' : os.World) × ((Wrap.read os fuel sockfd n
                >>= store_piece os fuel sockfd buflen fd dim again tot)
              w
            ≡ again ((tot + length bs) % u32_mod) w')
          × (r.view w' ≡ relayed sockfd fd (length bs) (r.view w))
          × (r.patience w' ≤ r.patience w)
          × (length bs ≤ length ((r.view w).incoming sockfd))
          × (n ≢ 0 → length bs ≡ 0 → length ((r.view w).incoming sockfd) ≡ 0)
    unfolding store_piece
    round-saves n file h =
        let (bs, w1, run, d) = read-Delivers os r fuel sockfd n w h in
        let file' =
          ap (λ t. t.is_file fd) d.moved
          ∙ is_file-consume sockfd (length bs) fd (r.view w)
          ∙ file in
        let (w2, wrote, moved, calm) = write_file bs w1 file' in
        (
          bs,
          w2,
          rw run (rw wrote),
          moved ∙ ap₂ (emit fd) d.front d.moved,
          omega (arith, d.calm),
          omega (arith, ap length d.front, length-take (length bs) ((r.view w).incoming sockfd)),
          λ some_asked none_read. ap length (d.progress some_asked (nil_of_length bs none_read)),
        )

  -- Where the stream holds the bytes that are still missing, and ends with them, the loop ends and
  -- they stand in the file.
  pub receive_loop-saves :
      (rounds tot left : ℕ) (w : os.World)
      → length ((r.view w).incoming sockfd) ≡ left
      → tot + left ≡ dim
      → dim < u32_mod
      → 0 < buflen
      → left < rounds
      → (r.view w).is_file fd ≡ true
      → r.patience w < fuel
      → (w' : os.World) × (receive_loop os fuel sockfd buflen fd dim rounds tot w ≡ (ok tt, w'))
        × (r.view w' ≡ relayed sockfd fd left (r.view w))
        × (r.patience w' ≤ r.patience w)
  unfolding receive_loop
  receive_loop-saves zero tot left w here total range large h file enough = absurd (omega arith)
  receive_loop-saves (suc rounds) tot zero w here total range large h file enough = (
    w,
    rw (le→not_ltb tot dim (omega arith)),
    sym (relayed-zero sockfd fd (r.view w)),
    omega arith,
  )
  receive_loop-saves (suc rounds) tot (suc left) w here total range large h file enough =
      let again = receive_loop os fuel sockfd buflen fd dim rounds in
      let (bs, w1, step, moved, calm, short, progress) =
        round-saves again tot w (to_read dim buflen) file enough in
      let k : ℕ = length bs in
      let some_read : 0 < k =
        pos_of_pos k (length ((r.view w).incoming sockfd))
          (progress (to_read-ne-zero dim buflen (omega arith) large)) (omega arith) in
      let (w2, run, moved', calm') =
        receive_loop-saves rounds ((tot + k) % u32_mod) (suc left - k) w1
          (length-relayed sockfd fd k (suc left) (r.view w) (r.view w1) here moved) (omega arith)
          range large (omega arith)
          (ap (λ t. t.is_file fd) moved ∙ is_file-relayed sockfd fd fd k (r.view w) ∙ file)
          (omega arith) in
      (
        w2,
        rw (lt→ltb tot dim (omega arith)) (step ∙ run),
        moved'
            ∙ relayed-relayed sockfd fd k (suc left - k) (suc left) (r.view w) (r.view w1) moved
                (omega arith),
        omega arith,
      )

  -- Where the stream ends before that, the loop never ends: `Read` returns 0 and this is not tested.
  pub receive_loop-hangs :
      (rounds tot : ℕ) (w : os.World)
      → tot + length ((r.view w).incoming sockfd) < dim
      → dim < u32_mod
      → (r.view w).is_file fd ≡ true
      → r.patience w < fuel
      → (receive_loop os fuel sockfd buflen fd dim rounds tot w).0 ≡ out_of_fuel
  unfolding receive_loop
  receive_loop-hangs zero tot w few range file enough = refl
  receive_loop-hangs (suc rounds) tot w few range file enough =
      let again = receive_loop os fuel sockfd buflen fd dim rounds in
      let (bs, w1, step, moved, calm, short, progress) =
        round-saves again tot w (to_read dim buflen) file enough in
      let k : ℕ = length bs in
      let left = length-relayed sockfd fd k _ (r.view w) (r.view w1) refl moved in
      rw (lt→ltb tot dim (omega arith)) (
        ap (λ (t : Result (Unit {0}) × os.World). t.0) step
        ∙ receive_loop-hangs rounds ((tot + k) % u32_mod) w1 (omega arith) range
            (ap (λ t. t.is_file fd) moved ∙ is_file-relayed sockfd fd fd k (r.view w) ∙ file)
            (omega arith))
