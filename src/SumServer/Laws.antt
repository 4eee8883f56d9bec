-- ===== src/SumServer/Laws.antt =====
-- What `prot_a` answers.
pub mod Sums
pub mod Clients
use dp.Base.{
  ℕ, zero, suc, ◌+◌, ◌-◌, ◌%◌, ◌≤◌, ◌<◌, ◌≡◌, refl, sym, ap, ◌∙◌, arith, Bool, true, false, Option,
  none, some, List, [], ◌∷◌, ◌++◌, length, take, ltb, Bool-cases, length-append, ◌==◌,
  if◌then◌else◌, Option-cases, inl, inr,
}
use dp.Os.Calls.{msg_nosignal, Fd, Os}
use dp.Os.Io.{Io, Result, ok, undefined, ◌>>=◌, ◌>>◌}
use dp.Os.Net.{Net, consume, emit}
use dp.Os.Net.Laws.{emit-nil}
use dp.Os.Reliable.{Reliable}
use dp.Sockwrap.Exact.Writing.{sendn-Gave}
use dp.Sockwrap.Lines.{readline_unbuffered}
use dp.Sockwrap.Lines.Loop.{take_line, line_count}
use dp.Sockwrap.Lines.Unbuffered.{readline_unbuffered-reads}
use dp.SumServer.Decimal.{
  Operands, operands, not_two, unfit_operand, c_string, scan_operands, decimal,
}
use dp.SumServer.Decimal.RoundTrip.{length-decimal}
use dp.Base.Words.{u32_mod}
use dp.SumServer.{
  max_uint16, max_bufl, msg_err, msg_ovf, sum_line, answer_operands, answer_line, prot_a,
}

pub length-sum_line : (op1 op2 : ℕ) → length (sum_line op1 op2) ≤ 12
unfolding sum_line
length-sum_line op1 op2 =
    let res = (op1 + op2) % u32_mod in
    elim (Bool-cases (ltb max_uint16 res)) [
      | inl h ↦ rw h (omega arith)
      | inr h ↦ rw h (omega (arith, length-append (decimal res) (13 ∷ 10 ∷ []), length-decimal res))
    ]

module _ (os : Os) (r : Reliable os) (fuel : ℕ) (connfd : Fd) where
  abbrev pub Run : Type 0
  Run = Result ℕ × os.World

  -- What follows a line with those operands, where `s` is what was there once it was read.
  abbrev pub OperandsOutcome : Io os.World ℕ → Net → Operands → Run → Type 0
  OperandsOutcome again s not_two run =
      (k : ℕ) × (w' : os.World) × (k ≤ length msg_err)
      × (run ≡ again w')
      × (r.view w' ≡ emit connfd (take k msg_err) s)
  OperandsOutcome again s unfit_operand run = run.0 ≡ undefined
  OperandsOutcome again s (operands op1 op2) run =
      (w' : os.World) × (run ≡ again w')
      × (r.view w' ≡ emit connfd (sum_line op1 op2) s)
      × (r.patience w' ≡ 0)

  -- What follows a line of which `readline_unbuffered` returned `n`.
  abbrev pub LineOutcome : Io os.World ℕ → Net → ℕ → List ℕ → Run → Type 0
  LineOutcome again s zero line run = (w' : os.World) × (run ≡ (ok 0, w')) × (r.view w' ≡ s)
  LineOutcome again s (suc n) line run = OperandsOutcome again s (scan_operands (c_string line)) run

  -- `send` has sent a front part, whatever it returned.
  send_some :
      (bs : List ℕ) (w : os.World)
      → (k : ℕ) × (k ≤ length bs)
        × (r.view (os.send connfd bs msg_nosignal w).1 ≡ emit connfd (take k bs) (r.view w))
  send_some bs w = elim (Option-cases (os.send connfd bs msg_nosignal w).0) [
    | inl failed ↦
        let (interrupted, same, fewer) = r.send_interrupted connfd bs w failed in
        (0, omega arith, same ∙ sym (emit-nil connfd (r.view w)))
    | inr (k, taken) ↦
        let (progress, short, moved, calm) = r.send_accepts connfd bs w k taken in (k, short, moved)
  ]

  answer_operands-Outcome :
      (again : Io os.World ℕ) (q : Operands) (w : os.World)
      → 12 < fuel
      → r.patience w ≡ 0
      → OperandsOutcome again (r.view w) q (answer_operands os fuel connfd again q w)
  unfolding answer_operands
  answer_operands-Outcome again not_two w enough quiet =
      let (k, short, moved) = send_some msg_err w in
      (k, (os.send connfd msg_err msg_nosignal w).1, short, refl, moved)
  answer_operands-Outcome again unfit_operand w enough quiet = refl
  answer_operands-Outcome again (operands op1 op2) w enough quiet =
      let (w', run, moved, calm) =
        sendn-Gave os r fuel connfd (sum_line op1 op2) w (omega (arith, length-sum_line op1 op2)) in
      (w', rw run refl, moved, omega arith)

  answer_line-Outcome :
      (again : Io os.World ℕ) (n : ℕ) (line : List ℕ) (w : os.World)
      → 12 < fuel
      → r.patience w ≡ 0
      → LineOutcome again (r.view w) n line (answer_line os fuel connfd again (some (n, line)) w)
  unfolding answer_line
  answer_line-Outcome again zero line w enough quiet = (w, refl, refl)
  answer_line-Outcome again (suc n) line w enough quiet =
      answer_operands-Outcome again (scan_operands (c_string line)) w enough quiet

  -- One turn of `prot_a`, if no signal comes: it takes one line off the stream, at most 254 bytes of
  -- it. If nothing is left, it returns 0. Without two numbers in the line it sends a front part of
  -- the error message; a number that 16 bits cannot hold is undefined; for two others it sends their
  -- sum, or that it overflows; and it goes on with the next line.
  pub prot_a-Outcome :
      (turns : ℕ) (w : os.World)
      → 12 < fuel
      → r.patience w ≡ 0
      → (w1 : os.World) × (r.view w1
          ≡ consume connfd (length (take_line 254 ((r.view w).incoming connfd))) (r.view w))
        × LineOutcome
            (prot_a os fuel connfd turns)
            (r.view w1)
            (line_count 0 254 ((r.view w).incoming connfd))
            (take_line 254 ((r.view w).incoming connfd))
            (prot_a os fuel connfd (suc turns) w)
  unfolding prot_a
  prot_a-Outcome turns w enough quiet =
      let stream = (r.view w).incoming connfd in
      let (w1, run, moved, still) = readline_unbuffered-reads os r connfd 254 w quiet in
      (
        w1,
        moved,
        rw run (
            answer_line-Outcome (prot_a os fuel connfd turns) (line_count 0 254 stream)
              (take_line 254 stream) w1 enough still),
      )
