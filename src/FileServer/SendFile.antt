-- ===== src/FileServer/SendFile.antt =====
-- `send_file` of lab3/es3/server.c: the header of 13 bytes and the pieces of the file.
pub mod Parts
pub mod Kept
pub mod Loop
pub mod Sent
use dp.Base.{
  ℕ, zero, suc, ◌+◌, ◌%◌, ◌^◌, Bool, ◌||◌, Option, none, some, List, length, ltb, ◌==◌,
  if◌then◌else◌,
}
use dp.Base.Words.{u32_mod, htonl_bytes}
use dp.Os.Calls.{Fd, FileName, Stat, Os}
use dp.Os.Errno.{ebadf}
use dp.Os.Io.{Io, ok, undefined, out_of_fuel, pure, stop, call, ◌>>=◌, ◌>>◌}
use dp.Sockwrap.Wrap
use dp.Sockwrap.Exact.{writen, readn_or_exit}
use dp.FileServer.Defs.{ok_line}

-- The first number above the range of `int`.
abbrev pub int_limit : ℕ
int_limit = 2 ^ 31

-- `filestat.st_size < buflen ? filestat.st_size : buflen`
unfoldable pub piece_size : ℕ → ℕ → ℕ
piece_size st_size buflen = if ltb st_size buflen then st_size else buflen

module _ (os : Os) (fuel : ℕ) (connfd : Fd) where
  -- The test of SO_ERROR that stands before each write: with an error pending the connection is
  -- closed and `send_file` returns 0.
  unfoldable pub check_connection : Io os.World ℕ → ℕ → Io os.World ℕ
  check_connection next errorvalue =
      if errorvalue == 0 then next else (Wrap.close os connfd >> pure 0)

  unfoldable pub if_connected : Io os.World ℕ → Io os.World ℕ
  unfolding check_connection
  if_connected next = Wrap.getsockopt_error os connfd >>= check_connection next

  -- The test of the result of `writen` on a part of the header.
  unfoldable pub check_sent : (ℕ → Io os.World ℕ) → Option ℕ → Io os.World ℕ
  check_sent next none = Wrap.close os connfd >> pure 0
  check_sent next (some k) = if k == ebadf then (Wrap.close os connfd >> pure 0) else next k

  unfoldable pub send_part : List ℕ → (ℕ → Io os.World ℕ) → Io os.World ℕ
  unfolding check_sent
  send_part bs next = if_connected (writen os fuel connfd bs >>= check_sent next)

  -- `totbytessent += bytes_sent` is kept as the sum of the counts and the number of failed calls,
  -- each of which counts as -1. Above the range of `int` the sum is undefined.
  unfoldable pub add_sent : (ℕ → ℕ → Io os.World ℕ) → ℕ → ℕ → Option ℕ → Io os.World ℕ
  add_sent again sum failures none = again sum (failures + 1)
  add_sent again sum failures (some k) =
      if ltb (sum + k) (int_limit + failures) then again (sum + k) failures else stop undefined

  unfoldable pub send_piece : (ℕ → ℕ → Io os.World ℕ) → ℕ → ℕ → List ℕ → Io os.World ℕ
  unfolding add_sent
  send_piece again sum failures bs =
      if_connected (writen os fuel connfd bs >>= add_sent again sum failures)

  module _ (fd : Fd) (st_size buflen : ℕ) where
    -- `while (totbytessent < filestat.st_size)`
    unfoldable pub send_loop : ℕ → ℕ → ℕ → Io os.World ℕ
    unfolding piece_size
    send_loop zero sum failures w = (out_of_fuel, w)
    send_loop (suc rounds) sum failures w =
        if ltb sum (st_size + failures)
        then (readn_or_exit os fuel fd (piece_size st_size buflen)
              >>= send_piece (send_loop rounds) sum failures)
            w
        else (ok 1, w)

  module _ (rounds : ℕ) (fd : Fd) (filestat : Stat) (buflen : ℕ) where
    -- The parts of the header, then the loop; `totbytessent` starts with their sum.
    unfoldable pub send_time : ℕ → ℕ → Io os.World ℕ
    send_time a b =
        send_part (htonl_bytes (filestat.st_mtime % u32_mod))
          λ c. send_loop fd filestat.st_size buflen rounds (a + b + c) 0

    unfoldable pub send_size : ℕ → Io os.World ℕ
    send_size a = send_part (htonl_bytes (filestat.st_size % u32_mod)) (send_time a)

    unfoldable pub send_header : Io os.World ℕ
    send_header = send_part ok_line send_size

  -- `filestat` is indeterminate where `fstat` failed.
  unfoldable pub send_opened : ℕ → Fd → ℕ → Option Stat → Io os.World ℕ
  send_opened rounds fd buflen none = stop undefined
  send_opened rounds fd buflen (some filestat) = send_header rounds fd filestat buflen

  unfoldable pub send_if_open : ℕ → ℕ → Option Fd → Io os.World ℕ
  unfolding send_opened
  send_if_open rounds buflen none = pure 0
  send_if_open rounds buflen (some fd) = call (os.fstat fd) >>= send_opened rounds fd buflen

  -- `rounds` bounds the rounds of its loop, `fuel` those of each call that it makes.
  unfoldable pub send_file : ℕ → FileName → ℕ → Io os.World ℕ
  unfolding send_if_open
  send_file rounds filename buflen = call (os.open_read filename) >>= send_if_open rounds buflen
