-- ===== src/FileClient/Commands.antt =====
-- The commands that lab3/es2/client.c sends, and its answer to an error.
pub mod Laws
use dp.Base.{ℕ, Option, none, some, List, [], ◌∷◌, ◌++◌, length, ltb, if◌then◌else◌}
use dp.Base.Scan.{Scanned, no_word, one_word, two_words, scan_two_words, before_nul}
use dp.Os.Calls.{Fd, Os}
use dp.Os.Io.{Io, undefined, pure, stop, ◌>>=◌, ◌>>◌}
use dp.Sockwrap.Wrap
use dp.Sockwrap.Exact.{writen}

abbrev pub buf_len : ℕ
buf_len = 128

abbrev pub get_prefix : List ℕ
get_prefix = b'G' ∷ b'E' ∷ b'T' ∷ b' ' ∷ []

abbrev pub line_end : List ℕ
line_end = 13 ∷ 10 ∷ []

abbrev pub quit_command : List ℕ
quit_command = b'Q' ∷ b'U' ∷ b'I' ∷ b'T' ∷ 13 ∷ 10 ∷ []

module _ (os : Os) (fuel : ℕ) (sockfd : Fd) where
  -- `sscanf(buffer, "%*s %s", filename)`: without a second word `filename` stays indeterminate, and
  -- one that does not fit with its terminator is stored past the end of the array.
  unfoldable pub send_name : Scanned → Io os.World (Unit {0})
  send_name (two_words command filename) =
      if ltb (length filename) buf_len
      then (do
        writen os fuel sockfd get_prefix
        writen os fuel sockfd filename
        writen os fuel sockfd line_end
        pure tt)
      else stop undefined
  send_name (one_word command) = stop undefined
  send_name no_word = stop undefined

  -- What `sscanf` sees of the buffer: a string, up to its first NUL.
  unfoldable pub send_string : Option (List ℕ) → Io os.World (Unit {0})
  unfolding send_name
  send_string none = stop undefined
  send_string (some string) = send_name (scan_two_words string)

  -- `send_GET`; `fgets` has put a NUL behind the bytes that it stored. The results of `writen` are
  -- not looked at.
  unfoldable pub send_get : List ℕ → Io os.World (Unit {0})
  unfolding send_string before_nul
  send_get buffer = send_string (before_nul (buffer ++ (0 ∷ [])))

  -- `send_cmdQUIT`
  unfoldable pub send_cmd_quit : Io os.World (Unit {0})
  send_cmd_quit = do writen os fuel sockfd quit_command; pure tt

  unfoldable pub manage_error : Io os.World (Unit {0})
  manage_error = Wrap.close os sockfd
