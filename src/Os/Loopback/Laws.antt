-- ===== src/Os/Loopback/Laws.antt =====
-- The machine of `Loopback` keeps the promises of `Reliable`.
use dp.Base.{
  ℕ, Bool, zero, suc, ◌+◌, ◌-◌, ◌≤◌, ◌<◌, ◌≡◌, ◌≢◌, refl, sym, ap, subst, ◌∙◌, fun_ext, arith, true,
  false, none, some, List, [], ◌∷◌, length, take, min, length-take, take-length-take,
}
use dp.Os.Calls.{Fd, FileName}
use dp.Os.Net.{File, update, consume, emit, shut, opened, created, held, stored, settle}
use dp.Os.Reliable.{Reliable, Interrupted, Prompt}
use dp.Os.Loopback.{
  Machine, is_open_now, view, read_with, write_with, close_at, with_fd, open_file, loopback,
}
use mathlib.Core.Option.{some-ne-none, none-ne-some, some-injective}
use native.Mathlib.Nat.{le_refl}

view-consume :
    (fd n : ℕ) (w : Machine) → view (record w { net = consume fd n w.net }) ≡ consume fd n (view w)
unfolding consume
view-consume fd n w = refl

view-emit :
    (fd : ℕ) (bs : List ℕ) (w : Machine)
    → view (record w { net = emit fd bs w.net }) ≡ emit fd bs (view w)
unfolding emit
view-emit fd bs w = refl

pub view-close : (fd : ℕ) (w : Machine) → view (close_at fd w).1 ≡ shut fd (view w)
unfolding shut stored
view-close fd w = λ i. record (settle fd w.net) { is_open = same i }
  where
    same : is_open_now (close_at fd w).1 ≡ update (is_open_now w) fd false
    same = fun_ext λ j. ground arith

pub view-opened :
    (f : File) (w : Machine) → view (with_fd (λ fd. opened fd f) w).1 ≡ opened w.next_fd f (view w)
unfolding opened
view-opened f w = λ i. record (with_fd (λ fd. opened fd f) w).1.net { is_open = same i }
  where
    same : is_open_now (with_fd (λ fd. opened fd f) w).1 ≡ update (is_open_now w) w.next_fd true
    same = fun_ext λ j. ground arith

pub view-created :
    (name : FileName) (w : Machine)
    → view (with_fd (λ fd. created fd name (held name w.net)) w).1
      ≡ created w.next_fd name (held name (view w)) (view w)
unfolding created held stored
view-created name w = λ i. record after.net { is_open = same i }
  where
    after : Machine
    after = (with_fd (λ fd. created fd name (held name w.net)) w).1

    same : is_open_now after ≡ update (is_open_now w) w.next_fd true
    same = fun_ext λ j. ground arith

pub fresh : (w : Machine) → (view w).is_open w.next_fd ≡ false
fresh w = ground arith

module _ (fd n : ℕ) (w : Machine) where
  abbrev pub ReadEnd : ℕ → Type 0
  ReadEnd k = (read_with k fd n w).0 ≡ some [] → n ≢ 0 → (view w).incoming fd ≡ []

  pub read_with-Interrupted :
      (k : ℕ)
      → (read_with k fd n w).0 ≡ none
      → Interrupted
          (read_with k fd n w).1.last_error
          (view w)
          (view (read_with k fd n w).1)
          k
          (read_with k fd n w).1.interrupts
  unfolding read_with
  read_with-Interrupted zero e = absurd (some-ne-none _ e)
  read_with-Interrupted (suc k) e = (refl, refl, omega arith)

  abbrev piece : List ℕ
  piece = take (min n (w.chunk + 1)) (w.net.incoming fd)

  abbrev Delivery : List ℕ → Type 0
  Delivery bs =
      (bs ≡ take (length bs) (w.net.incoming fd))
      × (length bs ≤ n)
      × (view (record w { net = consume fd (length piece) w.net })
          ≡ consume fd (length bs) (view w))

  piece-Delivery : Delivery piece
  piece-Delivery = (
    sym (take-length-take (min n (w.chunk + 1)) (w.net.incoming fd)),
    omega (arith, length-take (min n (w.chunk + 1)) (w.net.incoming fd)),
    view-consume fd (length piece) w,
  )

  pub read_with_delivers :
      (k : ℕ) (bs : List ℕ)
      → w.interrupts ≡ k
      → (read_with k fd n w).0 ≡ some bs
      → (bs ≡ take (length bs) (w.net.incoming fd))
        × (length bs ≤ n)
        × (view (read_with k fd n w).1 ≡ consume fd (length bs) (view w))
        × ((read_with k fd n w).1.interrupts ≤ k)
  unfolding read_with
  read_with_delivers zero bs h e =
      let (a, b, c) = subst Delivery (some-injective _ _ e) piece-Delivery in (a, b, c, omega arith)
  read_with_delivers (suc k) bs h e = absurd (none-ne-some _ e)

  none_left : (m : ℕ) (xs : List ℕ) → take (suc m) xs ≡ [] → xs ≡ []
  none_left m [] e = refl
  none_left m (x ∷ xs) e = cc

  positive : n ≢ 0 → (m : ℕ) × (min n (w.chunk + 1) ≡ suc m)
  positive h = (min n (w.chunk + 1) - 1, omega arith)

  pub read_with_end : (k : ℕ) → ReadEnd k
  unfolding read_with
  read_with_end zero e h =
      let (m, is_suc) = positive h in
      none_left m (w.net.incoming fd)
        (ap (λ t. take t (w.net.incoming fd)) (sym is_suc) ∙ some-injective _ _ e)
  read_with_end (suc k) e h = absurd (none-ne-some _ e)

module _ (fd : ℕ) (bs : List ℕ) (w : Machine) where
  pub write_with-Interrupted :
      (file : Bool) (k : ℕ)
      → (write_with file k fd bs w).0 ≡ none
      → Interrupted
          (write_with file k fd bs w).1.last_error
          (view w)
          (view (write_with file k fd bs w).1)
          k
          (write_with file k fd bs w).1.interrupts
  unfolding write_with
  write_with-Interrupted true k e = absurd (some-ne-none _ e)
  write_with-Interrupted false zero e = absurd (some-ne-none _ e)
  write_with-Interrupted false (suc k) e = (refl, refl, omega arith)

  length-pos : (xs : List ℕ) → xs ≢ [] → 0 < length xs
  length-pos [] h = absurd (h refl)
  length-pos (x ∷ xs) h = omega arith

  abbrev Acceptance : ℕ → ℕ → Machine → Type 0
  Acceptance k n w' =
      (bs ≢ [] → 0 < n)
      × (n ≤ length bs)
      × (view w' ≡ emit fd (take n bs) (view w))
      × (w'.interrupts ≤ k)

  accepts :
      (k m n : ℕ)
      → w.interrupts ≤ k
      → m ≡ n
      → (bs ≢ [] → 0 < m)
      → m ≤ length bs
      → Acceptance k n (record w { net = emit fd (take m bs) w.net })
  accepts k m n h e some_taken short = (
    λ some_left. omega (arith, some_taken some_left),
    omega arith,
    view-emit fd (take m bs) w ∙ ap (λ t. emit fd (take t bs) (view w)) e,
    omega arith,
  )

  pub write_with_accepts :
      (file : Bool) (k n : ℕ)
      → w.interrupts ≤ k
      → (write_with file k fd bs w).0 ≡ some n
      → Acceptance k n (write_with file k fd bs w).1
  unfolding write_with
  write_with_accepts true k n h e =
      accepts k (length bs) n h (some-injective _ _ e) (length-pos bs) (omega arith)
  write_with_accepts false zero n h e =
      accepts 0 (min (length bs) (w.chunk + 1)) n h (some-injective _ _ e)
        (λ some_left. omega (arith, length-pos bs some_left)) (omega arith)
  write_with_accepts false (suc k) n h e = absurd (none-ne-some _ e)

  pub write_with_file :
      (k : ℕ) (file : Bool) → file ≡ true → (write_with file k fd bs w).0 ≡ some (length bs)
  unfolding write_with
  write_with_file k true e = refl
  write_with_file k false e = cc

pub open_file_missing :
    (name : FileName) (w : Machine)
    → w.net.disk name ≡ none
    → w.net.written name ≡ none
    → ((open_file (w.net.disk name) w).0 ≡ none)
      × (view (open_file (w.net.disk name) w).1 ≡ view w)
      × ((open_file (w.net.disk name) w).1.interrupts ≤ w.interrupts)
unfolding open_file
open_file_missing name w e _ = rw e (refl, refl, omega arith)

pub open_file_found :
    (name : FileName) (w : Machine) (f : File)
    → w.net.disk name ≡ some f
    → w.net.written name ≡ none
    → (fd : Fd) × ((open_file (w.net.disk name) w).0 ≡ some fd)
      × ((view w).is_open fd ≡ false)
      × (view (open_file (w.net.disk name) w).1 ≡ opened fd f (view w))
      × ((open_file (w.net.disk name) w).1.interrupts ≤ w.interrupts)
unfolding open_file
open_file_found name w f e _ = rw e (w.next_fd, refl, fresh w, view-opened f w, omega arith)

-- On it only interruptions make a call fail, and there are `interrupts` of them.
abbrev pub loopback_reliable : Reliable loopback
loopback_reliable = record {
  view = view;
  patience = λ w. w.interrupts;
  read_interrupted = λ fd n w. read_with-Interrupted fd n w w.interrupts;
  read_delivers = λ fd n w bs. read_with_delivers fd n w w.interrupts bs refl;
  read_end = λ fd n w. read_with_end fd n w w.interrupts;
  write_interrupted = λ fd bs w. write_with-Interrupted fd bs w (w.net.is_file fd) w.interrupts;
  write_accepts =
      λ fd bs w k. write_with_accepts fd bs w (w.net.is_file fd) w.interrupts k (le_refl _);
  recv_interrupted = λ fd n w. read_with-Interrupted fd n w w.interrupts;
  recv_delivers = λ fd n w bs. read_with_delivers fd n w w.interrupts bs refl;
  recv_end = λ fd n w. read_with_end fd n w w.interrupts;
  send_interrupted = λ fd bs w. write_with-Interrupted fd bs w (w.net.is_file fd) w.interrupts;
  send_accepts =
      λ fd bs w k. write_with_accepts fd bs w (w.net.is_file fd) w.interrupts k (le_refl _);
  file_write_lem = λ fd bs w. write_with_file fd bs w w.interrupts (w.net.is_file fd);
  malloc_lem = λ n w. (refl, refl, le_refl _);
  open_create_lem = λ name w. (w.next_fd, refl, fresh w, view-created name w, le_refl _);
  close_lem = λ fd w. (refl, view-close fd w, le_refl _);
  so_error_lem = λ fd w. (refl, refl, le_refl _);
  open_read_missing = open_file_missing;
  open_read_found = open_file_found;
  fstat_lem = λ fd w. (refl, refl, le_refl _);
}

pub loopback-Prompt : (fd : Fd) → Prompt loopback loopback_reliable fd
loopback-Prompt fd limit w = (refl, refl, le_refl _)
