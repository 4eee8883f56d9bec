-- ===== src/SumServer/Text.antt =====
-- A line of text: what `readline_unbuffered` and `sscanf` make of it.
use dp.Base.{
  ℕ, zero, suc, ◌<◌, ◌≡◌, refl, ap, arith, true, false, List, [], ◌∷◌, ◌++◌, length, ◌==◌,
  length-append,
}
use dp.Sockwrap.Lines.Loop.{take_line, newline_within, line_count}
use dp.SumServer.Decimal.{is_digit, c_string}
use dp.SumServer.Decimal.RoundTrip.{AllDigits}

-- No byte is a newline or the terminator.
abbrev pub IsText : List ℕ → Type 0
IsText [] = Unit
IsText (c ∷ cs) = ((c == 10) ≡ false) × ((c == 0) ≡ false) × IsText cs

pub IsText-append : (bs cs : List ℕ) → IsText bs → IsText cs → IsText (bs ++ cs)
IsText-append [] cs p q = q
IsText-append (b ∷ bs) cs p q = (p.0, p.1, IsText-append bs cs p.2 q)

digit-text : (c : ℕ) → is_digit c ≡ true → ((c == 10) ≡ false) × ((c == 0) ≡ false)
unfolding is_digit
digit-text c h = (ground arith, ground arith)

pub AllDigits-IsText : (ds : List ℕ) → AllDigits ds → IsText ds
AllDigits-IsText [] all = tt
AllDigits-IsText (d ∷ ds) all =
    let (newline, nul) = digit-text d all.0 in (newline, nul, AllDigits-IsText ds all.1)

pub take_line-IsText :
    (limit : ℕ) (line rest : List ℕ)
    → IsText line
    → length line < limit
    → take_line limit (line ++ (10 ∷ rest)) ≡ line ++ (10 ∷ [])
unfolding take_line
take_line-IsText zero line rest text h = absurd (omega arith)
take_line-IsText (suc limit) [] rest text h = refl
take_line-IsText (suc limit) (c ∷ cs) rest text h =
    rw text.0 (ap (λ t. c ∷ t) (take_line-IsText limit cs rest text.2 (omega arith)))

newline_within-IsText :
    (limit : ℕ) (line rest : List ℕ)
    → IsText line
    → length line < limit
    → newline_within limit (line ++ (10 ∷ rest)) ≡ true
unfolding newline_within
newline_within-IsText zero line rest text h = absurd (omega arith)
newline_within-IsText (suc limit) [] rest text h = refl
newline_within-IsText (suc limit) (c ∷ cs) rest text h =
    rw text.0 (newline_within-IsText limit cs rest text.2 (omega arith))

pub line_count-IsText :
    (limit : ℕ) (line rest : List ℕ)
    → IsText line
    → length line < limit
    → line_count 0 limit (line ++ (10 ∷ rest)) ≡ suc (length line)
unfolding line_count
line_count-IsText limit line rest text h =
    rw (newline_within-IsText limit line rest text h, take_line-IsText limit line rest text h)
      (omega (arith, length-append line (10 ∷ [])))

pub c_string-IsText :
    (line : List ℕ) → IsText line → c_string (line ++ (10 ∷ [])) ≡ line ++ (10 ∷ [])
unfolding c_string
c_string-IsText [] text = refl
c_string-IsText (c ∷ cs) text = rw text.1 (ap (λ t. c ∷ t) (c_string-IsText cs text.2))
