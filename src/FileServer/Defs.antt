-- ===== src/FileServer/Defs.antt =====
-- The constants and messages of lab3/es3/server.c, and the reply to a request that it refuses.
use dp.Base.{ℕ, List, [], ◌∷◌}
use dp.Os.Calls.{Fd, Os}
use dp.Os.Io.{Io, quit, call, ◌>>◌}
use dp.Sockwrap.Wrap

abbrev pub filename_len : ℕ
filename_len = 255

-- The size of the array `command`.
abbrev pub command_len : ℕ
command_len = 5

abbrev pub max_buf : ℕ
max_buf = 2048

abbrev pub timeout_seconds : ℕ
timeout_seconds = 120

abbrev pub ok_line : List ℕ
ok_line = b'+' ∷ b'O' ∷ b'K' ∷ 13 ∷ 10 ∷ []

abbrev pub quit_line : List ℕ
quit_line = b'Q' ∷ b'U' ∷ b'I' ∷ b'T' ∷ 13 ∷ 10 ∷ []

abbrev pub get_word : List ℕ
get_word = b'G' ∷ b'E' ∷ b'T' ∷ []

-- The array of seven bytes that `error_msg` sends: the line and its terminator.
abbrev pub err_message : List ℕ
err_message = b'-' ∷ b'E' ∷ b'R' ∷ b'R' ∷ 13 ∷ 10 ∷ 0 ∷ []

module _ (os : Os) where
  unfoldable pub fatal_error : {A : Type 0} → ℕ → Io os.World A
  fatal_error error_number = quit error_number

  -- The result of `write` is not looked at.
  unfoldable pub error_msg : Fd → Io os.World (Unit {0})
  error_msg connfd = do call (os.write connfd err_message); Wrap.close os connfd
