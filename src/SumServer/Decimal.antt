-- ===== src/SumServer/Decimal.antt =====
-- What lab1/test_server/server_test.c uses of `sscanf` with "%hu %hu" and of `snprintf` with "%u".
pub mod RoundTrip
use dp.Base.{
  ℕ, zero, suc, ◌+◌, ◌-◌, ◌*◌, ◌/◌, ◌%◌, ◌^◌, Bool, true, false, ◌&&◌, Option, none, some, List, [],
  ◌∷◌, ◌++◌, ltb, leb, ◌==◌, if◌then◌else◌,
}
use dp.Base.Scan.{skip_spaces}

-- The string that a buffer holds: a terminator stands behind `bs`.
unfoldable pub c_string : List ℕ → List ℕ
c_string [] = []
c_string (c ∷ cs) = let rest = c_string cs in if c == 0 then [] else c ∷ rest

unfoldable pub is_digit : ℕ → Bool
is_digit c = leb 48 c && leb c 57

-- The longest run of digits, and what follows it.
unfoldable pub span_digits : List ℕ → List ℕ × List ℕ
unfolding is_digit
span_digits [] = ([], [])
span_digits (c ∷ cs) =
    let rest = span_digits cs in if is_digit c then (c ∷ rest.0, rest.1) else ([], c ∷ cs)

-- The value of digits behind a number.
unfoldable pub value : ℕ → List ℕ → ℕ
value acc [] = acc
value acc (c ∷ cs) = value (acc * 10 + (c - 48)) cs

abbrev pub ushort_limit : ℕ
ushort_limit = 2 ^ 16

abbrev pub ulong_limit : ℕ
ulong_limit = 2 ^ 64

-- `strtoul`: a number that does not fit is the largest one, and a minus negates modulo 2 ^ 64.
unfoldable pub to_ulong : Bool → ℕ → ℕ
to_ulong minus n =
    if leb ulong_limit n
    then ulong_limit - 1
    else if minus
    then (ulong_limit - n) % ulong_limit
    else n

-- What one "%hu" does: no number there; a number that the type cannot hold, which C leaves
-- undefined; or the number and the rest of the string.
pub data Scan : Type 0 where
  no_number : Scan
  unfit : Scan
  number : ℕ → List ℕ → Scan

unfoldable pub fit_unsigned : ℕ → ℕ → List ℕ → Scan
fit_unsigned limit n rest = if ltb n limit then number n rest else unfit

unfoldable pub scan_digits : ℕ → Bool → List ℕ × List ℕ → Scan
unfolding to_ulong fit_unsigned value
scan_digits limit minus ([], rest) = no_number
scan_digits limit minus (d ∷ ds, rest) = fit_unsigned limit (to_ulong minus (value 0 (d ∷ ds))) rest

unfoldable pub scan_signed : ℕ → List ℕ → Scan
unfolding scan_digits span_digits
scan_signed limit [] = no_number
scan_signed limit (c ∷ cs) =
    if c == b'-'
    then scan_digits limit true (span_digits cs)
    else if c == b'+'
    then scan_digits limit false (span_digits cs)
    else scan_digits limit false (span_digits (c ∷ cs))

-- "%hu" and "%u", where `limit` is the first number that the type cannot hold
unfoldable pub scan_unsigned : ℕ → List ℕ → Scan
unfolding scan_signed skip_spaces
scan_unsigned limit s = scan_signed limit (skip_spaces s)

abbrev pub scan_ushort : List ℕ → Scan
scan_ushort s = scan_unsigned ushort_limit s

-- What "%hu %hu" does.
pub data Operands : Type 0 where
  operands : ℕ → ℕ → Operands
  not_two : Operands
  unfit_operand : Operands

unfoldable pub second_operand : ℕ → Scan → Operands
second_operand op1 no_number = not_two
second_operand op1 unfit = unfit_operand
second_operand op1 (number op2 rest) = operands op1 op2

unfoldable pub first_operand : Scan → Operands
unfolding second_operand scan_unsigned
first_operand no_number = not_two
first_operand unfit = unfit_operand
first_operand (number op1 rest) = second_operand op1 (scan_ushort rest)

unfoldable pub scan_operands : List ℕ → Operands
unfolding first_operand scan_unsigned
scan_operands s = first_operand (scan_ushort s)

-- "%u" of a number with at most `suc more` digits
unfoldable pub decimal_digits : ℕ → ℕ → List ℕ
decimal_digits zero n = (48 + n % 10) ∷ []
decimal_digits (suc more) n =
    let front = decimal_digits more (n / 10) in
    if ltb n 10 then (48 + n) ∷ [] else front ++ ((48 + n % 10) ∷ [])

-- A number of 32 bits has at most ten digits.
unfoldable pub decimal : ℕ → List ℕ
unfolding decimal_digits
decimal n = decimal_digits 9 n
