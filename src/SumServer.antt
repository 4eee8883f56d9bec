-- ===== src/SumServer.antt =====
-- lab1/test_server/server_test.c, of which lab2/es4 has a copy: a server that adds two numbers. Here is
-- `prot_a`, which takes and gives numbers of 16 bits as lines of text.
mod Runs
pub mod Decimal
pub mod Text
pub mod Laws
pub mod Xdr
pub mod Main
pub mod Client
use dp.Base.{ℕ, zero, suc, ◌+◌, ◌%◌, Option, none, some, List, [], ◌∷◌, ◌++◌, ltb, if◌then◌else◌}
use dp.Base.Words.{u32_mod}
use dp.Os.Calls.{msg_nosignal, Fd, Os}
use dp.Os.Io.{Io, ok, undefined, out_of_fuel, pure, stop, call, ◌>>=◌, ◌>>◌}
use dp.Sockwrap.Exact.{sendn}
use dp.Sockwrap.Lines.{LineResult, readline_unbuffered}
use dp.SumServer.Decimal.{
  ushort_limit, Operands, operands, not_two, unfit_operand, c_string, scan_operands, decimal,
}

abbrev pub max_bufl : ℕ
max_bufl = 255

-- The largest number of 16 bits.
abbrev pub max_uint16 : ℕ
max_uint16 = 65535

abbrev pub msg_err : List ℕ
msg_err =
    b'w' ∷ b'r' ∷ b'o' ∷ b'n' ∷ b'g' ∷ b' ' ∷ b'o' ∷ b'p' ∷ b'e' ∷ b'r' ∷ b'a' ∷ b'n' ∷ b'd' ∷ b's'
    ∷ 13 ∷ 10 ∷ []

abbrev pub msg_ovf : List ℕ
msg_ovf = b'o' ∷ b'v' ∷ b'e' ∷ b'r' ∷ b'f' ∷ b'l' ∷ b'o' ∷ b'w' ∷ 13 ∷ 10 ∷ []

-- The line that is sent back for two operands.
unfoldable pub sum_line : ℕ → ℕ → List ℕ
unfolding decimal
sum_line op1 op2 =
    let res = (op1 + op2) % u32_mod in
    if ltb max_uint16 res then msg_ovf else decimal res ++ (13 ∷ 10 ∷ [])

module _ (os : Os) (fuel : ℕ) (connfd : Fd) where
  -- The results of `send` and `sendn` are only traced.
  unfoldable pub answer_operands : Io os.World ℕ → Operands → Io os.World ℕ
  unfolding sum_line
  answer_operands again not_two = call (os.send connfd msg_err msg_nosignal) >> again
  answer_operands again unfit_operand = stop undefined
  answer_operands again (operands op1 op2) =
      sendn os fuel connfd (sum_line op1 op2) msg_nosignal >> again

  unfoldable pub answer_line : Io os.World ℕ → LineResult → Io os.World ℕ
  unfolding answer_operands c_string scan_operands
  answer_line again none = pure 0
  answer_line again (some (zero, line)) = pure 0
  answer_line again (some (suc n, line)) = answer_operands again (scan_operands (c_string line))

  -- `while (1)`, for a number of turns
  unfoldable pub prot_a : ℕ → Io os.World ℕ
  unfolding answer_line
  prot_a zero w = (out_of_fuel, w)
  prot_a (suc turns) w = (readline_unbuffered os connfd max_bufl >>= answer_line (prot_a turns)) w
