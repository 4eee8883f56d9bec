-- ===== src/SumServer/Laws/Sums.antt =====
-- `prot_a` on lines that hold two numbers of 16 bits.
use dp.Base.{
  ℕ, suc, ◌+◌, ◌%◌, ◌<◌, ◌≡◌, refl, sym, ap, ◌∙◌, arith, List, [], ◌∷◌, ◌++◌, length, drop, leb,
  if◌then◌else◌, subst, append_assoc, length-append,
}
use dp.Base.Words.{u32_mod}
use dp.Os.Calls.{Fd, Os}
use dp.Os.Io.{Io, Result}
use dp.Os.Net.{Net}
use dp.Os.Net.Laws.{incoming-consume, incoming-emit, sent-emit, sent-consume}
use dp.Os.Reliable.{Reliable}
use dp.Sockwrap.Lines.Loop.{take_line, line_count}
use dp.SumServer.Decimal.{ushort_limit, operands, c_string, scan_operands, decimal}
use dp.SumServer.Decimal.RoundTrip.{decimal-Prints, scan_operands-Prints}
use dp.SumServer.Text.{
  IsText, IsText-append, AllDigits-IsText, take_line-IsText, line_count-IsText, c_string-IsText,
}
use dp.SumServer.{max_uint16, msg_ovf, sum_line, prot_a}
use dp.SumServer.Laws.{OperandsOutcome, LineOutcome, prot_a-Outcome}

-- A request as a client writes it: the two numbers in decimal, and CR LF.
abbrev pub request : ℕ → ℕ → List ℕ → List ℕ
request a b rest = decimal a ++ (32 ∷ (decimal b ++ (13 ∷ 10 ∷ rest)))

-- The answer that is due.
abbrev pub sum_answer : ℕ → ℕ → List ℕ
sum_answer a b = if leb (a + b) max_uint16 then decimal (a + b) ++ (13 ∷ 10 ∷ []) else msg_ovf

sum_line-answer : (a b : ℕ) → a < ushort_limit → b < ushort_limit → sum_line a b ≡ sum_answer a b
unfolding sum_line
sum_line-answer a b ha hb =
    let whole : (a + b) % u32_mod ≡ a + b = omega arith in rw whole (ground arith)

-- The request without its newline.
abbrev line_of : ℕ → List ℕ → ℕ → List ℕ → List ℕ
line_of c cs d ds = (c ∷ cs) ++ (32 ∷ ((d ∷ ds) ++ (13 ∷ [])))

split_line :
    (c d : ℕ) (cs ds rest : List ℕ)
    → line_of c cs d ds ++ (10 ∷ rest) ≡ (c ∷ cs) ++ (32 ∷ ((d ∷ ds) ++ (13 ∷ 10 ∷ rest)))
split_line c d cs ds rest =
    append_assoc (c ∷ cs) (32 ∷ ((d ∷ ds) ++ (13 ∷ []))) (10 ∷ rest)
    ∙ ap (λ t. (c ∷ cs) ++ (32 ∷ t)) (append_assoc (d ∷ ds) (13 ∷ []) (10 ∷ rest))

-- What the server reads of a request.
record Understood (a b : ℕ) (stream rest : List ℕ) : Type 0 where
  line : List ℕ
  front : stream ≡ line ++ (10 ∷ rest)
  count : line_count 0 254 stream ≡ suc (length line)
  taken : take_line 254 stream ≡ line ++ (10 ∷ [])
  meaning : scan_operands (c_string (take_line 254 stream)) ≡ operands a b

request-Understood :
    (a b : ℕ) (rest : List ℕ)
    → a < ushort_limit
    → b < ushort_limit
    → Understood a b (request a b rest) rest
request-Understood a b rest ha hb =
    let (c, cs, p) = decimal-Prints a (omega arith) in
    let (d, ds, q) = decimal-Prints b (omega arith) in
    let text : IsText (line_of c cs d ds) =
      IsText-append (c ∷ cs) (32 ∷ ((d ∷ ds) ++ (13 ∷ []))) (AllDigits-IsText (c ∷ cs) p.digits) (
        refl,
        refl,
        IsText-append (d ∷ ds) (13 ∷ []) (AllDigits-IsText (d ∷ ds) q.digits) (refl, refl, tt),
      ) in
    let short : length (line_of c cs d ds) < 254 = omega (
      arith,
      length-append (c ∷ cs) (32 ∷ ((d ∷ ds) ++ (13 ∷ []))),
      length-append (d ∷ ds) (13 ∷ []),
      p.short,
      q.short,
    ) in
    let front : request a b rest ≡ line_of c cs d ds ++ (10 ∷ rest) =
      rw (p.same, q.same) (sym (split_line c d cs ds rest)) in
    let taken = take_line-IsText 254 (line_of c cs d ds) rest text short in
    record {
      line = line_of c cs d ds;
      front = front;
      count =
          ap (line_count 0 254) front ∙ line_count-IsText 254 (line_of c cs d ds) rest text short;
      taken = ap (take_line 254) front ∙ taken;
      meaning =
          ap (λ t. scan_operands (c_string (take_line 254 t))) front
          ∙ ap (λ t. scan_operands (c_string t)) taken
          ∙ ap scan_operands (c_string-IsText (line_of c cs d ds) text ∙ split_line c d cs ds [])
          ∙ scan_operands-Prints a b c d cs ds (10 ∷ []) p q ha hb;
    }

drop_front : (line rest : List ℕ) → drop (length (line ++ (10 ∷ []))) (line ++ (10 ∷ rest)) ≡ rest
drop_front [] rest = refl
drop_front (c ∷ cs) rest = drop_front cs rest

module _ (os : Os) (r : Reliable os) (fuel : ℕ) (connfd : Fd) where
  understood_outcome :
      (again : Io os.World ℕ) (s : Net) (run : Result ℕ × os.World) (a b n m : ℕ) (line : List ℕ)
      → n ≡ suc m
      → scan_operands (c_string line) ≡ operands a b
      → LineOutcome os r fuel connfd again s n line run
      → OperandsOutcome os r fuel connfd again s (operands a b) run
  understood_outcome again s run a b n m line e meaning outcome =
      subst (λ q. OperandsOutcome os r fuel connfd again s q run) meaning
        (subst (λ t. LineOutcome os r fuel connfd again s t line run) e outcome)

  -- The request is read, its sum sent, and the stream stands behind it.
  pub prot_a-adds :
      (a b : ℕ) (rest : List ℕ) (turns : ℕ) (w : os.World)
      → a < ushort_limit
      → b < ushort_limit
      → 12 < fuel
      → r.patience w ≡ 0
      → (r.view w).incoming connfd ≡ request a b rest
      → (w' : os.World) × (prot_a os fuel connfd (suc turns) w ≡ prot_a os fuel connfd turns w')
        × ((r.view w').incoming connfd ≡ rest)
        × ((r.view w').sent connfd ≡ (r.view w).sent connfd ++ sum_answer a b)
        × (r.patience w' ≡ 0)
  prot_a-adds a b rest turns w ha hb enough quiet here =
      let u = request-Understood a b rest ha hb in
      let stream = (r.view w).incoming connfd in
      let (w1, moved, outcome) = prot_a-Outcome os r fuel connfd turns w enough quiet in
      let (w', run, sent, still) =
        understood_outcome (prot_a os fuel connfd turns) (r.view w1)
          (prot_a os fuel connfd (suc turns) w) a b (line_count 0 254 stream) (length u.line)
          (take_line 254 stream) (ap (line_count 0 254) here ∙ u.count)
          (ap (λ t. scan_operands (c_string (take_line 254 t))) here ∙ u.meaning) outcome in
      let n = length (take_line 254 stream) in
      (
        w',
        run,
        ap (λ (t : Net). t.incoming connfd) sent
            ∙ incoming-emit connfd connfd (sum_line a b) (r.view w1)
            ∙ ap (λ (t : Net). t.incoming connfd) moved
            ∙ incoming-consume connfd n (r.view w)
            ∙ ap (λ t. drop (length (take_line 254 t)) t) here
            ∙ ap (λ t. drop (length t) (request a b rest)) u.taken
            ∙ ap (drop (length (u.line ++ (10 ∷ [])))) u.front
            ∙ drop_front u.line rest,
        ap (λ (t : Net). t.sent connfd) sent
            ∙ sent-emit connfd (sum_line a b) (r.view w1)
            ∙ ap (λ t. t ++ sum_line a b)
                (ap (λ (t : Net). t.sent connfd) moved ∙ sent-consume connfd n connfd (r.view w))
            ∙ ap (λ t. (r.view w).sent connfd ++ t) (sum_line-answer a b ha hb),
        still,
      )
