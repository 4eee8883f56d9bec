-- ===== src/SumServer/Decimal/RoundTrip.antt =====
-- A number printed in decimal is scanned back.
use dp.Base.{
  ℕ, zero, suc, ◌+◌, ◌-◌, ◌*◌, ◌/◌, ◌%◌, ◌≤◌, ◌<◌, ◌≡◌, refl, sym, ap, ◌∙◌, arith, true, false,
  List, [], ◌∷◌, ◌++◌, length, length-append, ◌==◌, lt→ltb, le→not_ltb, subst,
}
use dp.Base.Scan.{is_space, skip_spaces_word, skip_spaces_space}
use native.Mathlib.Decide.{dec_lt}
use dp.SumServer.Decimal.{
  ushort_limit, is_digit, span_digits, value, number, scan_digits, scan_signed, scan_unsigned,
  scan_ushort, operands, first_operand, second_operand, scan_operands, decimal_digits, decimal,
}

abbrev pub AllDigits : List ℕ → Type 0
AllDigits [] = Unit
AllDigits (c ∷ cs) = (is_digit c ≡ true) × AllDigits cs

AllDigits-snoc :
    (ds : List ℕ) (d : ℕ) → AllDigits ds → is_digit d ≡ true → AllDigits (ds ++ (d ∷ []))
AllDigits-snoc [] d all h = (h, tt)
AllDigits-snoc (c ∷ cs) d all h = (all.0, AllDigits-snoc cs d all.1 h)

value-snoc :
    (acc : ℕ) (ds : List ℕ) (d : ℕ) → value acc (ds ++ (d ∷ [])) ≡ value acc ds * 10 + (d - 48)
unfolding value
value-snoc acc [] d = refl
value-snoc acc (c ∷ cs) d = value-snoc (acc * 10 + (c - 48)) cs d

-- The largest number that `suc more` digits can print.
abbrev largest : ℕ → ℕ
largest zero = 9
largest (suc more) = 10 * largest more + 9

digit : (d : ℕ) → d < 10 → is_digit (48 + d) ≡ true
unfolding is_digit
digit d h = ground arith

decimal_digits-AllDigits : (more n : ℕ) → n ≤ largest more → AllDigits (decimal_digits more n)
unfolding decimal_digits
decimal_digits-AllDigits zero n h = (digit (n % 10) (omega arith), tt)
decimal_digits-AllDigits (suc more) n h = elim (dec_lt n 10) [
  | yes p ↦ rw (lt→ltb n 10 p) (digit n p, tt)
  | no p ↦ rw (le→not_ltb n 10 (omega arith)) (
      AllDigits-snoc (decimal_digits more (n / 10)) (48 + n % 10)
        (decimal_digits-AllDigits more (n / 10) (omega arith)) (digit (n % 10) (omega arith)))
]

value-decimal_digits : (more n : ℕ) → n ≤ largest more → value 0 (decimal_digits more n) ≡ n
unfolding decimal_digits value
value-decimal_digits zero n h = omega arith
value-decimal_digits (suc more) n h = elim (dec_lt n 10) [
  | yes p ↦ rw (lt→ltb n 10 p) (omega arith)
  | no p ↦ rw (le→not_ltb n 10 (omega arith)) (
      value-snoc 0 (decimal_digits more (n / 10)) (48 + n % 10)
      ∙ rw (value-decimal_digits more (n / 10) (omega arith)) (omega arith))
]

length-decimal_digits : (more n : ℕ) → length (decimal_digits more n) ≤ suc more
unfolding decimal_digits
length-decimal_digits zero n = omega arith
length-decimal_digits (suc more) n = elim (dec_lt n 10) [
  | yes p ↦ rw (lt→ltb n 10 p) (omega arith)
  | no p ↦ rw (le→not_ltb n 10 (omega arith)) (
      omega (
        arith,
        length-append (decimal_digits more (n / 10)) ((48 + n % 10) ∷ []),
        length-decimal_digits more (n / 10),
      ))
]

snoc_cons : (ds : List ℕ) (d : ℕ) → (c : ℕ) × (cs : List ℕ) × (ds ++ (d ∷ []) ≡ c ∷ cs)
snoc_cons [] d = (d, [], refl)
snoc_cons (c ∷ cs) d = (c, cs ++ (d ∷ []), refl)

decimal_digits_cons : (more n : ℕ) → (c : ℕ) × (cs : List ℕ) × (decimal_digits more n ≡ c ∷ cs)
unfolding decimal_digits
decimal_digits_cons zero n = (48 + n % 10, [], refl)
decimal_digits_cons (suc more) n = elim (dec_lt n 10) [
  | yes p ↦ rw (lt→ltb n 10 p) (48 + n, [], refl)
  | no p ↦
      rw (le→not_ltb n 10 (omega arith)) (snoc_cons (decimal_digits more (n / 10)) (48 + n % 10))
]

-- What the other modules use of the decimal digits of a number of 16 bits: they are digits, at
-- least one and at most ten, and their value is the number.
pub record Prints (n : ℕ) (c : ℕ) (cs : List ℕ) : Type 0 where
  pub same : decimal n ≡ c ∷ cs
  pub digits : AllDigits (c ∷ cs)
  pub short : length (c ∷ cs) ≤ 10
  pub worth : value 0 (c ∷ cs) ≡ n

pub decimal-Prints : (n : ℕ) → n < 2 * ushort_limit → (c : ℕ) × (cs : List ℕ) × Prints n c cs
unfolding decimal
decimal-Prints n h =
    let (c, cs, e) = decimal_digits_cons 9 n in
    (
      c,
      cs,
      record {
        same = e;
        digits = subst AllDigits e (decimal_digits-AllDigits 9 n (omega arith));
        short = omega (arith, sym (ap length e), length-decimal_digits 9 n);
        worth = sym (ap (value 0) e) ∙ value-decimal_digits 9 n (omega arith);
      },
    )

span_digits-append :
    (ds rest : List ℕ) (c : ℕ)
    → AllDigits ds
    → is_digit c ≡ false
    → span_digits (ds ++ (c ∷ rest)) ≡ (ds, c ∷ rest)
unfolding span_digits
span_digits-append [] rest c all stop = rw stop refl
span_digits-append (d ∷ ds) rest c all stop =
    rw (all.0, span_digits-append ds rest c all.1 stop) refl

plain :
    (c : ℕ)
    → is_digit c ≡ true
    → (is_space c ≡ false) × ((c == b'-') ≡ false) × ((c == b'+') ≡ false)
unfolding is_digit is_space
plain c h = (ground arith, ground arith, ground arith)

-- A number is scanned back, up to the first byte that is no digit.
scan_ushort-Prints :
    (n c d : ℕ) (cs rest : List ℕ)
    → Prints n c cs
    → n < ushort_limit
    → is_digit d ≡ false
    → scan_ushort ((c ∷ cs) ++ (d ∷ rest)) ≡ number n (d ∷ rest)
unfolding scan_unsigned scan_signed scan_digits
scan_ushort-Prints n c d cs rest p h stop =
    let (word, minus, sign) = plain c p.digits.0 in
    rw
      (
        skip_spaces_word c (cs ++ (d ∷ rest)) word,
        minus,
        sign,
        span_digits-append (c ∷ cs) rest d p.digits stop,
        p.worth,
      )
      (ground arith)

no_digit : (is_digit 32 ≡ false) × (is_digit 13 ≡ false) × (is_space 32 ≡ true)
unfolding is_digit is_space
no_digit = (refl, refl, refl)

-- White space before a number is skipped.
scan_ushort-space : (s : List ℕ) → scan_ushort (32 ∷ s) ≡ scan_ushort s
unfolding scan_unsigned
scan_ushort-space s = ap (scan_signed ushort_limit) (skip_spaces_space 32 s no_digit.2)

-- Two printed numbers of 16 bits with a space between them are scanned back.
pub scan_operands-Prints :
    (a b c d : ℕ) (cs ds rest : List ℕ)
    → Prints a c cs
    → Prints b d ds
    → a < ushort_limit
    → b < ushort_limit
    → scan_operands ((c ∷ cs) ++ (32 ∷ ((d ∷ ds) ++ (13 ∷ rest)))) ≡ operands a b
unfolding scan_operands first_operand second_operand
scan_operands-Prints a b c d cs ds rest p q ha hb =
    rw
      (
        scan_ushort-Prints a c 32 cs ((d ∷ ds) ++ (13 ∷ rest)) p ha no_digit.0,
        scan_ushort-space ((d ∷ ds) ++ (13 ∷ rest)),
        scan_ushort-Prints b d 13 ds rest q hb no_digit.1,
      )
      refl

pub length-decimal : (n : ℕ) → length (decimal n) ≤ 10
unfolding decimal
length-decimal n = length-decimal_digits 9 n
