-- ===== src/Sockwrap/Exact.antt =====
-- The loops of sockwrap.c that move an exact number of bytes: `readn`, `writen` and `sendn`.
-- `read` may give fewer bytes than were asked for, `write` may take fewer, and a signal may
-- interrupt either. The loops take rounds as fuel. A buffer is the list of the bytes in it.
pub mod Reading
pub mod Writing
use dp.Base.{
  ℕ, zero, suc, ◌-◌, Option, none, some, List, [], ◌∷◌, ◌++◌, length, drop, ◌==◌, if◌then◌else◌,
}
use dp.Os.Calls.{Fd, Os}
use dp.Os.Errno.{eintr}
use dp.Os.Io.{Io, ok, out_of_fuel, pure, call, ◌>>=◌}
use dp.Errlib.{err_sys}

module _ (os : Os) where
  -- What the body of the loop does with the result of `read`, where `again` goes on with the loop.
  unfoldable pub readn_round :
      (ℕ → List ℕ → Io os.World (Option (List ℕ)))
      → ℕ
      → List ℕ
      → Option (List ℕ)
      → Io os.World (Option (List ℕ))
  readn_round again nleft got none w =
      if os.errno w == eintr then again nleft got w else (ok none, w)
  readn_round again nleft got (some []) w = (ok (some got), w)
  readn_round again nleft got (some (b ∷ bs)) w =
      again (nleft - length (b ∷ bs)) (got ++ (b ∷ bs)) w

  unfoldable pub readn_loop : ℕ → Fd → ℕ → List ℕ → Io os.World (Option (List ℕ))
  readn_loop zero fd nleft got w = (out_of_fuel, w)
  readn_loop (suc fuel) fd zero got w = (ok (some got), w)
  readn_loop (suc fuel) fd (suc n) got w =
      (call (os.read fd (suc n)) >>= readn_round (readn_loop fuel fd) (suc n) got) w

  -- `none` is -1; otherwise the bytes that the buffer holds, whose number is returned.
  unfoldable pub readn : ℕ → Fd → ℕ → Io os.World (Option (List ℕ))
  unfolding readn_loop readn_round
  readn fuel fd n = readn_loop fuel fd n []

  -- What the body of the loop does with the result of `write` or `send`.
  unfoldable pub writen_round :
      (List ℕ → Io os.World (Option ℕ)) → ℕ → List ℕ → Option ℕ → Io os.World (Option ℕ)
  writen_round again n left none w = if os.errno w == eintr then again left w else (ok none, w)
  writen_round again n left (some zero) w =
      if os.errno w == eintr then again left w else (ok none, w)
  writen_round again n left (some (suc k)) w = again (drop (suc k) left) w

  -- The loop of `writen` and of `sendn`, where `put` is the call.
  unfoldable pub put_loop :
      (List ℕ → os.World → Option ℕ × os.World) → ℕ → ℕ → List ℕ → Io os.World (Option ℕ)
  unfolding writen_round
  put_loop put zero n left w = (out_of_fuel, w)
  put_loop put (suc fuel) n [] w = (ok (some n), w)
  put_loop put (suc fuel) n (b ∷ bs) w =
      (call (put (b ∷ bs)) >>= writen_round (put_loop put fuel n) n (b ∷ bs)) w

  -- The bytes of the buffer stand for the pointer and the count.
  unfoldable pub writen : ℕ → Fd → List ℕ → Io os.World (Option ℕ)
  unfolding put_loop
  writen fuel fd bs = put_loop (os.write fd) fuel (length bs) bs

  unfoldable pub sendn : ℕ → Fd → List ℕ → ℕ → Io os.World (Option ℕ)
  unfolding put_loop
  sendn fuel fd bs flags = put_loop (λ left. os.send fd left flags) fuel (length bs) bs

  -- `Readn`, `Writen` and `Sendn` end the process where these fail.
  unfoldable pub or_exit_read : Option (List ℕ) → Io os.World (List ℕ)
  or_exit_read none = err_sys
  or_exit_read (some bs) = pure bs

  unfoldable pub readn_or_exit : ℕ → Fd → ℕ → Io os.World (List ℕ)
  unfolding or_exit_read
  readn_or_exit fuel fd n = readn fuel fd n >>= or_exit_read

  unfoldable pub or_exit_count : ℕ → Option ℕ → Io os.World (Unit {0})
  or_exit_count n none = err_sys
  or_exit_count n (some k) = if k == n then pure tt else err_sys

  unfoldable pub writen_or_exit : ℕ → Fd → List ℕ → Io os.World (Unit {0})
  unfolding or_exit_count
  writen_or_exit fuel fd bs = writen fuel fd bs >>= or_exit_count (length bs)

  unfoldable pub sendn_or_exit : ℕ → Fd → List ℕ → ℕ → Io os.World (Unit {0})
  unfolding or_exit_count
  sendn_or_exit fuel fd bs flags = sendn fuel fd bs flags >>= or_exit_count (length bs)
