-- ===== src/FileClient/Session/Quit.antt =====
-- The end of a session: `Q` is typed.
use dp.Base.{
  ℕ, suc, ◌+◌, ◌-◌, ◌<◌, ◌≡◌, refl, arith, Bool, true, false, Option, none, some, List, [], ◌∷◌,
  length, ◌==◌, if◌then◌else◌,
}
use dp.Base.Scan.{starts_with}
use dp.Os.Calls.{Fd, Os}
use dp.Os.Io.{ok, exit}
use dp.Os.Net.{emit}
use dp.Os.Reliable.{Reliable}
use dp.Sockwrap.Wrap
use dp.Sockwrap.Exact.Writing.{writen-Gave}
use dp.FileServer.Service.{quit, parse_request}
use dp.FileClient.Commands.{buf_len, quit_command, send_cmd_quit}
use dp.FileClient.Session.{is_set, first_byte, typed_line, typed, dispatch, session}

quit_command-parsed : parse_request quit_command ≡ quit
unfolding parse_request starts_with
quit_command-parsed = refl

some_ready : (ready : List ℕ) → (length (0 ∷ ready) == 0) ≡ false
some_ready ready = ground arith

module _ (os : Os) (r : Reliable os) (fuel rounds : ℕ) (sockfd : Fd) (buflen : ℕ) where
  -- If a line that starts with `Q` is typed before any answer made the client give up, it sends one
  -- request, which the server reads as `QUIT`, and returns 0. After an unexpected answer the same
  -- line ends the process with status 1, and nothing is sent.
  pub session-quit :
      (turns : ℕ) (old : Option (List ℕ)) (abort : Bool) (ready line : List ℕ) (w w1 : os.World)
      → Wrap.select os fuel (0 ∷ sockfd ∷ []) none w ≡ (ok (0 ∷ ready), w1)
      → (os.fgets (buf_len - 1) w1).0 ≡ some (b'Q' ∷ line)
      → 6 + r.patience (os.fgets (buf_len - 1) w1).1 < fuel
      → (w' : os.World) × (session os fuel rounds sockfd buflen
            (suc turns)
            (record { receive_buffer = old; abort = abort })
            w
          ≡ ((if abort then exit 1 else ok 0), w'))
        × (r.view w' ≡ (
            if abort
            then r.view (os.fgets (buf_len - 1) w1).1
            else emit sockfd quit_command (r.view (os.fgets (buf_len - 1) w1).1)))
        × (parse_request quit_command ≡ quit)
  unfolding session dispatch typed typed_line first_byte is_set send_cmd_quit
  session-quit turns old true ready line w w1 waited input enough = (
    (os.fgets (buf_len - 1) w1).1,
    rw waited (rw (some_ready ready) (rw input refl)),
    refl,
    quit_command-parsed,
  )
  session-quit turns old false ready line w w1 waited input enough =
      let (w', run, moved, calm) =
        writen-Gave os r fuel sockfd quit_command (os.fgets (buf_len - 1) w1).1 enough in
      (w', rw waited (rw (some_ready ready) (rw input (rw run refl))), moved, quit_command-parsed)
