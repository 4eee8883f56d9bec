-- ===== src/EarlyServer/Requests.antt =====
-- The loop over the requests of one client in server1_main.c and server2_main.c. The buffer is
-- allocated once and never cleared: what a read leaves of it stands there in the next round.
use dp.Base.{
  ℕ, zero, suc, Bool, Option, none, some, List, [], ◌∷◌, ◌++◌, drop, length, ltb, ◌==◌,
  if◌then◌else◌,
}
use dp.Base.Scan.{before_nul, starts_with, scan_two_words}
use dp.Os.Calls.{Fd, Os}
use dp.Os.Errno.{ebadf}
use dp.Os.Io.{Io, undefined, out_of_fuel, pure, stop, call, ◌>>=◌, ◌>>◌}
use dp.Sockwrap.Wrap
use dp.FileServer.Defs.{quit_line, error_msg}
use dp.FileServer.SendFile.{send_file}
use dp.FileServer.Service.{Request, quit, get, wrong_format, overrun, request_of_words}

-- A read stores its bytes over the front of the buffer.
unfoldable pub overwrite : List ℕ → List ℕ → List ℕ
overwrite bs buf = bs ++ drop (length bs) buf

unfoldable pub request_of_string : Option (List ℕ) → Request
unfolding request_of_words scan_two_words
request_of_string none = overrun
request_of_string (some s) = request_of_words (scan_two_words s)

-- `strncmp` looks at six bytes; `sscanf` reads on to a terminator.
unfoldable pub request_in : List ℕ → Request
unfolding starts_with request_of_string before_nul
request_in buf = if starts_with quit_line buf then quit else request_of_string (before_nul buf)

-- `breaks`: after a request that is refused server2 leaves its loop, and server1 does not.
module _ (os : Os) (fuel : ℕ) (connfd : Fd) (buflen rounds timeout : ℕ) (breaks : Bool) where
  unfoldable pub close_and_leave : List ℕ → Io os.World (List ℕ)
  close_and_leave buf = Wrap.close os connfd >> pure buf

  -- `while (read > 0)`
  unfoldable pub next_request : (List ℕ → Io os.World (List ℕ)) → ℕ → List ℕ → Io os.World (List ℕ)
  next_request again read buf = if ltb 0 read then again buf else pure buf

  unfoldable pub after_file :
      (List ℕ → Io os.World (List ℕ)) → ℕ → List ℕ → ℕ → Io os.World (List ℕ)
  unfolding next_request
  after_file again read buf sent = if sent == 0 then pure buf else next_request again read buf

  unfoldable pub after_refusal : (List ℕ → Io os.World (List ℕ)) → ℕ → List ℕ → Io os.World (List ℕ)
  unfolding next_request
  after_refusal again read buf = if breaks then pure buf else next_request again read buf

  unfoldable pub answer :
      (List ℕ → Io os.World (List ℕ)) → ℕ → List ℕ → Request → Io os.World (List ℕ)
  unfolding close_and_leave after_file after_refusal
  answer again read buf quit = close_and_leave buf
  answer again read buf (get filename) =
      send_file os fuel connfd rounds filename buflen >>= after_file again read buf
  answer again read buf wrong_format = error_msg os connfd >> after_refusal again read buf
  answer again read buf overrun = stop undefined

  unfoldable pub received : (List ℕ → Io os.World (List ℕ)) → List ℕ → List ℕ → Io os.World (List ℕ)
  unfolding answer overwrite request_in
  received again buf bs =
      answer again (length bs) (overwrite bs buf) (request_in (overwrite bs buf))

  unfoldable pub check_error : (List ℕ → Io os.World (List ℕ)) → List ℕ → ℕ → Io os.World (List ℕ)
  unfolding received close_and_leave
  check_error again buf errorvalue =
      if errorvalue == 0
      then (Wrap.read os fuel connfd buflen >>= received again buf)
      else close_and_leave buf

  unfoldable pub after_select :
      (List ℕ → Io os.World (List ℕ)) → List ℕ → Option (List Fd) → Io os.World (List ℕ)
  unfolding check_error close_and_leave
  after_select again buf none = Wrap.getsockopt_error os connfd >>= check_error again buf
  after_select again buf (some ready) =
      if length ready == ebadf
      then close_and_leave buf
      else if length ready == 0
      then close_and_leave buf
      else (Wrap.getsockopt_error os connfd >>= check_error again buf)

  -- `do … while (read > 0)`, with fuel for the requests; the buffer as it is left
  unfoldable pub request_loop : ℕ → List ℕ → Io os.World (List ℕ)
  unfolding after_select
  request_loop zero buf w = (out_of_fuel, w)
  request_loop (suc requests) buf w =
      (call (os.select (connfd ∷ []) (some timeout)) >>= after_select (request_loop requests) buf) w
