-- ===== src/Sockwrap/Lines.antt =====
-- The functions of sockwrap.c that read a line: `my_read`, `readline` and `readline_unbuffered`. The
-- two loops differ in the call that gives the next byte, and a signal is not an error for `my_read`
-- only. The static buffer of `my_read` is a state: the bytes from `read_ptr` on.
pub mod Loop
pub mod Buffered
pub mod Unbuffered
use dp.Base.{
  ℕ, zero, suc, ◌+◌, ◌-◌, Option, none, some, List, [], ◌∷◌, ◌++◌, length, ◌==◌, if◌then◌else◌,
}
use dp.Os.Calls.{Fd, Os}
use dp.Os.Errno.{eintr}
use dp.Os.Io.{Io, ok, undefined, out_of_fuel, pure, stop, call, ◌>>=◌}
use dp.Errlib.{err_sys}

abbrev pub max_line : ℕ
max_line = 1024

-- The results 1, 0 and -1 of `my_read`.
pub data NextChar : Type 0 where
  char : ℕ → NextChar
  at_end : NextChar
  failed : NextChar

-- What `readline` returns: -1 is `none`; otherwise its number, and the bytes that it stored before
-- the terminator.
abbrev pub LineResult : Type 0
LineResult = Option (ℕ × List ℕ)

module _ {W S : Type 0} (next : S → Io W (NextChar × S)) where
  -- The body of the loop: `n` is the number of the stored bytes and one.
  unfoldable pub line_round :
      (List ℕ → S → Io W (LineResult × S)) → List ℕ → NextChar × S → Io W (LineResult × S)
  line_round again stored (char c, s) =
      if c == 10
      then pure (some (length stored + 1, stored ++ (c ∷ [])), s)
      else again (stored ++ (c ∷ [])) s
  line_round again stored (at_end, s) =
      if length stored == 0
      then pure (some (0, stored), s)
      else pure (some (length stored + 1, stored), s)
  line_round again stored (failed, s) = pure (none, s)

  -- `for (n=1; n<maxlen; n++)`, with `maxlen - n` rounds left
  unfoldable pub line_loop : ℕ → List ℕ → S → Io W (LineResult × S)
  unfolding line_round
  line_loop zero stored s w = (ok (some (length stored + 1, stored), s), w)
  line_loop (suc left) stored s w = (next s >>= line_round (line_loop left) stored) w

module _ (os : Os) (fuel : ℕ) (fd : Fd) where
  -- What `my_read` makes of the result of `read`, where `again` is the call from the label on.
  unfoldable pub fill_buffer :
      Io os.World (NextChar × List ℕ) → Option (List ℕ) → Io os.World (NextChar × List ℕ)
  fill_buffer again none w = if os.errno w == eintr then again w else (ok (failed, []), w)
  fill_buffer again (some []) w = (ok (at_end, []), w)
  fill_buffer again (some (c ∷ cs)) w = (ok (char c, cs), w)

  unfoldable pub my_read_empty : ℕ → Io os.World (NextChar × List ℕ)
  unfolding fill_buffer
  my_read_empty zero w = (out_of_fuel, w)
  my_read_empty (suc rounds) w =
      (call (os.read fd max_line) >>= fill_buffer (my_read_empty rounds)) w

  unfoldable pub my_read : List ℕ → Io os.World (NextChar × List ℕ)
  unfolding my_read_empty
  my_read [] = my_read_empty fuel
  my_read (c ∷ cs) = pure (char c, cs)

  -- With no room for it, the terminator is stored past the end of the array.
  unfoldable pub readline : ℕ → List ℕ → Io os.World (LineResult × List ℕ)
  unfolding line_loop my_read
  readline zero buffer = stop undefined
  readline (suc left) buffer = line_loop my_read left [] buffer

  unfoldable pub line_or_exit : LineResult × List ℕ → Io os.World ((ℕ × List ℕ) × List ℕ)
  line_or_exit (none, buffer) = err_sys
  line_or_exit (some line, buffer) = pure (line, buffer)

  -- `Readline`
  unfoldable pub readline_or_exit : ℕ → List ℕ → Io os.World ((ℕ × List ℕ) × List ℕ)
  unfolding line_or_exit
  readline_or_exit maxlen buffer = readline maxlen buffer >>= line_or_exit

module _ (os : Os) (fd : Fd) where
  unfoldable pub received_char : Option (List ℕ) → Io os.World (NextChar × Unit {0})
  received_char none = pure (failed, tt)
  received_char (some []) = pure (at_end, tt)
  received_char (some (c ∷ cs)) = pure (char c, tt)

  unfoldable pub recv_char : Unit {0} → Io os.World (NextChar × Unit {0})
  unfolding received_char
  recv_char s = call (os.recv fd 1 0) >>= received_char

  unfoldable pub only_line : LineResult × Unit {0} → Io os.World LineResult
  only_line line = pure line.0

  unfoldable pub readline_unbuffered : ℕ → Io os.World LineResult
  unfolding line_loop recv_char only_line
  readline_unbuffered zero = stop undefined
  readline_unbuffered (suc left) = line_loop recv_char left [] tt >>= only_line

  unfoldable pub unbuffered_or_exit : LineResult → Io os.World (ℕ × List ℕ)
  unbuffered_or_exit none = err_sys
  unbuffered_or_exit (some line) = pure line

  -- `Readline_unbuffered`
  unfoldable pub readline_unbuffered_or_exit : ℕ → Io os.World (ℕ × List ℕ)
  unfolding unbuffered_or_exit
  readline_unbuffered_or_exit maxlen = readline_unbuffered maxlen >>= unbuffered_or_exit
