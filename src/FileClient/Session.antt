-- ===== src/FileClient/Session.antt =====
-- The loop of `main` of lab3/es2/client.c: it waits for a typed command and for the server.
pub mod Closed
pub mod Quit
use dp.Base.{
  ℕ, ◌-◌, ltb, zero, suc, Bool, true, false, ◌||◌, Option, none, some, List, [], ◌∷◌, ◌++◌, length,
  drop, ◌==◌, if◌then◌else◌,
}
use dp.Base.Scan.{before_nul}
use dp.Os.Calls.{Fd, Os}
use dp.Os.Io.{Io, undefined, out_of_fuel, pure, quit, stop, call, ◌>>=◌, ◌>>◌}
use dp.Sockwrap.Wrap
use dp.Sockwrap.Exact.{readn_or_exit}
use dp.FileClient.Receive.{receive_file}
use dp.FileClient.Commands.{buf_len, send_get, send_cmd_quit, manage_error}

-- What `receive_buffer` holds, zeroes behind it; indeterminate before anything was stored. The flag
-- `abort` is looked at after the next typed command.
pub record Session : Type 0 where
  pub receive_buffer : Option (List ℕ)
  pub abort : Bool

abbrev pub start : Session
start = record { receive_buffer = none; abort = false }

unfoldable pub is_set : Fd → List Fd → Bool
is_set fd [] = false
is_set fd (x ∷ xs) = fd == x || is_set fd xs

unfoldable pub first_byte : List ℕ → ℕ
first_byte [] = 0
first_byte (c ∷ cs) = c

module _ (os : Os) (fuel rounds : ℕ) (sockfd : Fd) (buflen : ℕ) where
  -- After the `switch` on a typed command.
  unfoldable pub check_abort : (Session → Io os.World ℕ) → Session → Io os.World ℕ
  check_abort again s = if s.abort then quit 1 else again s

  unfoldable pub typed_line : (Session → Io os.World ℕ) → Session → List ℕ → Io os.World ℕ
  unfolding check_abort first_byte
  typed_line again s line =
      let now : Session = record { receive_buffer = some line; abort = s.abort } in
      let command = first_byte line in
      if command == b'G'
      then (send_get os fuel sockfd line >> check_abort again now)
      else if command == b'Q'
      then (if s.abort then quit 1 else (send_cmd_quit os fuel sockfd >> pure 0))
      else if command == b'A'
      then quit 1
      else check_abort again now

  unfoldable pub typed : (Session → Io os.World ℕ) → Session → Option (List ℕ) → Io os.World ℕ
  unfolding typed_line
  typed again s none = quit 1
  typed again s (some line) = typed_line again s line

  -- The first byte of an answer.
  unfoldable pub answered : (Session → Io os.World ℕ) → Bool → List ℕ → List ℕ → Io os.World ℕ
  unfolding first_byte
  answered again abort filename bs =
      let kind = first_byte bs in
      if kind == b'-'
      then (manage_error os fuel sockfd
          >> again (record { receive_buffer = some bs; abort = abort }))
      else if kind == b'+'
      then (receive_file os fuel sockfd buflen rounds filename
          >> again (record { receive_buffer = some bs; abort = abort }))
      else (Wrap.close os sockfd >> again (record { receive_buffer = some bs; abort = true }))

  unfoldable pub receive_named_answer :
      (Session → Io os.World ℕ) → Bool → Option (List ℕ) → Io os.World ℕ
  unfolding answered
  receive_named_answer again abort none = stop undefined
  receive_named_answer again abort (some filename) =
      readn_or_exit os fuel sockfd 1 >>= answered again abort filename

  -- `strcpy(filename, receive_buffer+4)`
  unfoldable pub copy_name : Option (List ℕ) → Option (List ℕ)
  unfolding before_nul
  copy_name none = none
  copy_name (some buffer) = before_nul (drop 4 buffer ++ (0 ∷ []))

  unfoldable pub from_server : (Session → Io os.World ℕ) → Session → ℕ → Io os.World ℕ
  unfolding receive_named_answer copy_name
  from_server again s errorvalue =
      if errorvalue == 0
      then receive_named_answer again s.abort (copy_name s.receive_buffer)
      else (Wrap.close os sockfd >> pure 0)

  unfoldable pub dispatch : (Session → Io os.World ℕ) → Session → List Fd → Io os.World ℕ
  unfolding typed from_server is_set
  dispatch again s ready =
      if length ready == 0
      then again s
      else if is_set 0 ready
      then (call (os.fgets (buf_len - 1)) >>= typed again s)
      else if is_set sockfd ready
      then (Wrap.getsockopt_error os sockfd >>= from_server again s)
      else quit 1

  -- `while (quit == 0)`, and the `QUIT` that is sent after it
  unfoldable pub session : ℕ → Session → Io os.World ℕ
  unfolding dispatch
  session zero s w = (out_of_fuel, w)
  session (suc turns) s w =
      (Wrap.select os fuel (0 ∷ sockfd ∷ []) none >>= dispatch (session turns) s) w

abbrev pub max_buf : ℕ
max_buf = 255

unfoldable pub at_most : ℕ → ℕ → ℕ
at_most limit n = if ltb limit n then limit else n

-- `main` from the connected socket on
unfoldable pub main : (os : Os) → ℕ → ℕ → ℕ → Fd → Io os.World ℕ
unfolding at_most
main os fuel rounds turns sockfd = do
  buflen ← Wrap.getsockopt_rcvbuf os sockfd
  session os fuel rounds sockfd (at_most max_buf buflen) turns start
