-- ===== src/Errlib/Output.antt =====
-- Where errlib.c sends its messages, and which of its functions come back.
use dp.Base.{ℕ, ◌≡◌, ap, Bool, true, false, Option, none, some, List, [], ◌∷◌, ◌++◌, take}
use dp.Errlib.Message.{err_doit, err_doit-fits, whole}

-- LOG_ERR and LOG_INFO of <syslog.h>
abbrev pub log_err : ℕ
log_err = 3

abbrev pub log_info : ℕ
log_info = 6

-- The calls of <syslog.h> and <stdio.h> that `err_doit` makes.
pub data Output : Type 0 where
  syslog : ℕ → List ℕ → Output
  flush_stdout : Output
  put_stderr : List ℕ → Output
  flush_stderr : Output

-- `if (daemon_proc)`
unfoldable pub send_text : Bool → ℕ → List ℕ → List Output
send_text true level buf = syslog level buf ∷ []
send_text false level buf = flush_stdout ∷ put_stderr buf ∷ flush_stderr ∷ []

-- No output if the message runs past the end of its buffer, which C leaves undefined.
unfoldable pub sent_to : Bool → ℕ → Option (List ℕ) → Option (List Output)
unfolding send_text
sent_to daemon_proc level none = none
sent_to daemon_proc level (some buf) = some (send_text daemon_proc level buf)

unfoldable pub report : Bool → Bool → ℕ → List ℕ → List ℕ → Option (List Output)
unfolding sent_to err_doit
report daemon_proc errnoflag level formatted reason =
    sent_to daemon_proc level (err_doit errnoflag formatted reason)

-- How a function ends: it comes back, or the process ends with a status.
pub data Ending : Type 0 where
  returns : Ending
  exits : ℕ → Ending

-- `err_ret`, `err_sys`, `err_msg` and `err_quit`
pub data Reporter : Type 0 where
  ret sys msg quit : Reporter

unfoldable pub report_by : Reporter → Bool → List ℕ → List ℕ → Option (List Output) × Ending
unfolding report
report_by ret daemon_proc formatted reason =
    (report daemon_proc true log_info formatted reason, returns)
report_by sys daemon_proc formatted reason =
    (report daemon_proc true log_err formatted reason, exits 1)
report_by msg daemon_proc formatted reason =
    (report daemon_proc false log_info formatted reason, returns)
report_by quit daemon_proc formatted reason =
    (report daemon_proc false log_err formatted reason, exits 1)

-- What the functions are for: the names of the first two speak of system calls, and the
-- comments call the second and the last fatal.
abbrev pub names_reason : Reporter → Bool
names_reason ret = true
names_reason sys = true
names_reason msg = false
names_reason quit = false

abbrev pub is_fatal : Reporter → Bool
is_fatal ret = false
is_fatal sys = true
is_fatal msg = false
is_fatal quit = true

abbrev pub ending : Bool → Ending
ending true = exits 1
ending false = returns

abbrev pub level_of : Bool → ℕ
level_of true = log_err
level_of false = log_info

-- The message, as far as it fits, and a newline.
abbrev pub printed : Bool → List ℕ → List ℕ → List ℕ
printed names formatted reason = take 4094 (whole names formatted reason) ++ (10 ∷ [])

report-printed :
    (daemon_proc errnoflag : Bool) (level : ℕ) (formatted reason : List ℕ)
    → report daemon_proc errnoflag level formatted reason
      ≡ some (send_text daemon_proc level (printed errnoflag formatted reason))
unfolding report sent_to
report-printed daemon_proc errnoflag level formatted reason =
    ap (sent_to daemon_proc level) (err_doit-fits errnoflag formatted reason)

-- Each of the four functions of errlib.c, with every message and reason: the first 4094 bytes of the
-- message, followed by the reason in `err_ret` and `err_sys`, and a newline, go to the log with the
-- level of an error or of an information if the program is a daemon, and otherwise to the
-- standard error between two flushes; nothing is stored past the end of the buffer; and the process
-- ends, with status 1, in `err_sys` and `err_quit` only.
pub report_by-printed :
    (f : Reporter) (daemon_proc : Bool) (formatted reason : List ℕ)
    → report_by f daemon_proc formatted reason ≡ (
      some (
          send_text daemon_proc
            (level_of (is_fatal f))
            (printed (names_reason f) formatted reason)),
      ending (is_fatal f),
    )
unfolding report_by
report_by-printed ret daemon_proc formatted reason =
    ap (λ t. (t, returns)) (report-printed daemon_proc true log_info formatted reason)
report_by-printed sys daemon_proc formatted reason =
    ap (λ t. (t, exits 1)) (report-printed daemon_proc true log_err formatted reason)
report_by-printed msg daemon_proc formatted reason =
    ap (λ t. (t, returns)) (report-printed daemon_proc false log_info formatted reason)
report_by-printed quit daemon_proc formatted reason =
    ap (λ t. (t, exits 1)) (report-printed daemon_proc false log_err formatted reason)
