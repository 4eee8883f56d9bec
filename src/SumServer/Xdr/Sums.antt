-- ===== src/SumServer/Xdr/Sums.antt =====
-- What `prot_x` answers.
use dp.Base.{
  ℕ, ◌≡◌, refl, sym, ap, ◌∙◌, fun_ext, arith, Bool, true, false, Option, none, some, List, [], ◌∷◌,
  ◌++◌,
}
use dp.Base.Int.{ℤ, pos, int_sum}
use dp.Os.Calls.{Fd}
use dp.Os.Net.{update}
use dp.Os.Io.{Result, ok, undefined}
use dp.SumServer.Xdr.{
  Stream, IntStreams, or_zero, send_result, with_streams, with_output, with_input, prot_x,
}

-- The streams of a connection that works: the integers that wait on it, those that were sent, and the
-- streams that are open.
pub record Working {W : Type 0} (io : IntStreams W) (connfd : Fd) : Type 0 where
  pub pending : W → List ℤ
  pub sent : W → List ℤ
  pub is_open : W → Stream → Bool
  pub fdopen_read_lem :
      (w : W)
      → (f : Stream) × ((io.fdopen_read connfd w).0 ≡ some f)
        × (is_open w f ≡ false)
        × (pending (io.fdopen_read connfd w).1 ≡ pending w)
        × (sent (io.fdopen_read connfd w).1 ≡ sent w)
        × (is_open (io.fdopen_read connfd w).1 ≡ update (is_open w) f true)
  pub fdopen_write_lem :
      (w : W)
      → (f : Stream) × ((io.fdopen_write connfd w).0 ≡ some f)
        × (is_open w f ≡ false)
        × (pending (io.fdopen_write connfd w).1 ≡ pending w)
        × (sent (io.fdopen_write connfd w).1 ≡ sent w)
        × (is_open (io.fdopen_write connfd w).1 ≡ update (is_open w) f true)
  pub read_int_some :
      (f : Stream) (w : W) (v : ℤ) (rest : List ℤ)
      → pending w ≡ v ∷ rest
      → ((io.read_int f w).0 ≡ some v)
        × (pending (io.read_int f w).1 ≡ rest)
        × (sent (io.read_int f w).1 ≡ sent w)
        × (is_open (io.read_int f w).1 ≡ is_open w)
  pub read_int_none :
      (f : Stream) (w : W)
      → pending w ≡ []
      → ((io.read_int f w).0 ≡ none)
        × (pending (io.read_int f w).1 ≡ [])
        × (sent (io.read_int f w).1 ≡ sent w)
        × (is_open (io.read_int f w).1 ≡ is_open w)
  -- what is written goes out when the stream is flushed
  pub flush_sends :
      (f : Stream) (v : ℤ) (w : W)
      → (sent (io.flush f (io.write_int f v w).1).1 ≡ sent w ++ (v ∷ []))
        × (is_open (io.flush f (io.write_int f v w).1).1 ≡ is_open w)
  pub fclose_lem :
      (f : Stream) (w : W)
      → (sent (io.fclose f w).1 ≡ sent w) × (is_open (io.fclose f w).1 ≡ update (is_open w) f false)

-- Two streams that were not open, opened and closed.
both_closed :
    (o : Stream → Bool) (f g : Stream)
    → o f ≡ false
    → update o f true g ≡ false
    → update (update (update (update o f true) g true) g false) f false ≡ o
both_closed o f g hf hg = fun_ext λ j. ground (arith, hf, hg)

-- The operand that a read finds, and what it leaves.
abbrev pub operand : List ℤ → ℤ
operand [] = pos 0
operand (v ∷ rest) = v

abbrev pub behind : List ℤ → List ℤ
behind [] = []
behind (v ∷ rest) = rest

module _ {W : Type 0} (io : IntStreams W) (connfd : Fd) (laws : Working io connfd) where
  read_operand :
      (f : Stream) (ops : List ℤ) (w : W)
      → laws.pending w ≡ ops
      → (or_zero (io.read_int f w).0 ≡ operand ops)
        × (laws.pending (io.read_int f w).1 ≡ behind ops)
        × (laws.sent (io.read_int f w).1 ≡ laws.sent w)
        × (laws.is_open (io.read_int f w).1 ≡ laws.is_open w)
  unfolding or_zero
  read_operand f [] w e =
      let (got, left, same, opens) = laws.read_int_none f w e in (rw got refl, left, same, opens)
  read_operand f (v ∷ rest) w e =
      let (got, left, same, opens) = laws.read_int_some f w v rest e in
      (rw got refl, left, same, opens)

  -- What the run leaves: nothing that C defines, or one number sent and the same streams open.
  abbrev pub SumOutcome : W → Option ℤ → Result ℕ × W → Type 0
  SumOutcome w none run = run.0 ≡ undefined
  SumOutcome w (some res) run =
      (w' : W) × (run ≡ (ok 0, w'))
      × (laws.sent w' ≡ laws.sent w ++ (res ∷ []))
      × (laws.is_open w' ≡ laws.is_open w)

  send_result-SumOutcome :
      (f g : Stream) (o : Option ℤ) (v w : W)
      → laws.sent w ≡ laws.sent v
      → laws.is_open v f ≡ false
      → update (laws.is_open v) f true g ≡ false
      → laws.is_open w ≡ update (update (laws.is_open v) f true) g true
      → SumOutcome v o (send_result io f g o w)
  unfolding send_result
  send_result-SumOutcome f g none v w same hf hg opens = refl
  send_result-SumOutcome f g (some res) v w same hf hg opens =
      let w1 = (io.flush g (io.write_int g res w).1).1 in
      let (gone, kept) = laws.flush_sends g res w in
      let (same2, closed2) = laws.fclose_lem g w1 in
      let w2 = (io.fclose g w1).1 in
      let (same3, closed3) = laws.fclose_lem f w2 in
      (
        (io.fclose f w2).1,
        refl,
        same3 ∙ same2 ∙ gone ∙ ap (λ t. t ++ (res ∷ [])) same,
        closed3
            ∙ ap (λ t. update t f false) (closed2 ∙ ap (λ t. update t g false) (kept ∙ opens))
            ∙ both_closed (laws.is_open v) f g hf hg,
      )

  -- On a connection that works, whatever integers wait on it: an operand that is missing counts as 0.
  -- If the sum of the two operands is an `int`, it is sent and nothing else, `prot_x` returns 0, and
  -- the streams that it opened are closed again; if not, C leaves the result undefined.
  pub prot_x-SumOutcome :
      (ops : List ℤ) (w : W)
      → laws.pending w ≡ ops
      → SumOutcome w (int_sum (operand ops) (operand (behind ops))) (prot_x io connfd w)
  unfolding prot_x with_input with_output with_streams
  prot_x-SumOutcome ops w e =
      let (f, got, hf, pend1, sent1, open1) = laws.fdopen_read_lem w in
      let w1 = (io.fdopen_read connfd w).1 in
      let (g, got', hg, pend2, sent2, open2) = laws.fdopen_write_lem w1 in
      let w2 = (io.fdopen_write connfd w1).1 in
      let (first, left, sent3, open3) = read_operand f ops w2 (pend2 ∙ pend1 ∙ e) in
      let w3 = (io.read_int f w2).1 in
      let (second, left', sent4, open4) = read_operand f (behind ops) w3 left in
      let w4 = (io.read_int f w3).1 in
      rw (got, got', first, second)
        (send_result-SumOutcome f g (int_sum (operand ops) (operand (behind ops))) w w4
          (sent4 ∙ sent3 ∙ sent2 ∙ sent1) hf (sym (ap (λ t. t g) open1) ∙ hg)
          (open4 ∙ open3 ∙ open2 ∙ ap (λ t. update t g true) open1))
