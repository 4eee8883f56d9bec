-- ===== src/SumServer/Xdr.antt =====
-- `prot_x` of server_test.c: the operands and the sum as integers of XDR on two streams.
pub mod Sums
mod Runs
use dp.Base.{ℕ, Bool, Option, none, some}
use dp.Base.Int.{ℤ, pos, int_sum}
use dp.Os.Calls.{Fd}
use dp.Os.Io.{Io, undefined, pure, stop, call, ◌>>=◌, ◌>>◌}
use dp.Errlib.{err_sys}

abbrev pub Stream : Type 0
Stream = ℕ

-- The streams of <stdio.h> and `xdr_int` on them: parameters.
pub record IntStreams (W : Type 0) : Type 0 where
  pub fdopen_read : Fd → W → Option Stream × W
  pub fdopen_write : Fd → W → Option Stream × W
  pub read_int : Stream → W → Option ℤ × W
  pub write_int : Stream → ℤ → W → Bool × W
  pub flush : Stream → W → Unit {0} × W
  pub fclose : Stream → W → Unit {0} × W

-- A read that fails leaves the operand at 0, where it was initialised.
unfoldable pub or_zero : Option ℤ → ℤ
or_zero none = pos 0
or_zero (some v) = v

module _ {W : Type 0} (io : IntStreams W) where
  -- The result of `xdr_int` is not looked at.
  unfoldable pub send_result : Stream → Stream → Option ℤ → Io W ℕ
  send_result input output none = stop undefined
  send_result input output (some res) = do
    call (io.write_int output res)
    call (io.flush output)
    call (io.fclose output)
    call (io.fclose input)
    pure 0

  unfoldable pub with_streams : Stream → Stream → Io W ℕ
  unfolding send_result or_zero int_sum
  with_streams input output = call (io.read_int input) >>= λ op1.
      call (io.read_int input) >>= λ op2.
      send_result input output (int_sum (or_zero op1) (or_zero op2))

  unfoldable pub with_output : Stream → Option Stream → Io W ℕ
  unfolding with_streams
  with_output input none = err_sys
  with_output input (some output) = with_streams input output

  unfoldable pub with_input : Fd → Option Stream → Io W ℕ
  unfolding with_output
  with_input connfd none = err_sys
  with_input connfd (some input) = call (io.fdopen_write connfd) >>= with_output input

  unfoldable pub prot_x : Fd → Io W ℕ
  unfolding with_input
  prot_x connfd = call (io.fdopen_read connfd) >>= with_input connfd
