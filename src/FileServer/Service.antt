-- ===== src/FileServer/Service.antt =====
-- `service` and `serve_client` of lab3/es3/server.c: the requests of one client, one client after
-- another.
pub mod Rounds
pub mod Text
use dp.Base.{
  ℕ, zero, suc, Bool, true, false, Option, none, some, List, [], ◌∷◌, length, ltb, ◌==◌,
  if◌then◌else◌,
}
use dp.Base.Scan.{string_in, starts_with, Scanned, no_word, one_word, two_words, scan_two_words}
use dp.Os.Calls.{Fd, Os}
use dp.Os.Errno.{ebadf}
use dp.Os.Io.{Io, ok, undefined, out_of_fuel, pure, stop, call, ◌>>=◌, ◌>>◌}
use dp.Sockwrap.Wrap
use dp.FileServer.Defs.{
  filename_len, command_len, timeout_seconds, quit_line, get_word, fatal_error, error_msg,
}
use dp.FileServer.SendFile.{send_file}

-- What the string that was received asks for. A word that does not fit the array that `sscanf`
-- stores it in, with its terminator, is written past the end of the array.
pub data Request : Type 0 where
  quit : Request
  get : List ℕ → Request
  wrong_format : Request
  overrun : Request

unfoldable pub fits_get : List ℕ → List ℕ → Request
fits_get command filename =
    if ltb (length filename) filename_len
    then (if starts_with get_word command then get filename else wrong_format)
    else overrun

unfoldable pub request_of_words : Scanned → Request
unfolding fits_get
request_of_words no_word = wrong_format
request_of_words (one_word command) =
    if ltb (length command) command_len then wrong_format else overrun
request_of_words (two_words command filename) =
    if ltb (length command) command_len then fits_get command filename else overrun

unfoldable pub parse_request : List ℕ → Request
unfolding request_of_words starts_with scan_two_words
parse_request s = if starts_with quit_line s then quit else request_of_words (scan_two_words s)

module _ (os : Os) (fuel : ℕ) (connfd : Fd) (buflen : ℕ) where
  unfoldable pub close_and_leave : Io os.World (Unit {0})
  close_and_leave = Wrap.close os connfd

  -- The end of the loop's body: `again` is the next round.
  unfoldable pub next_request : Io os.World (Unit {0}) → ℕ → Io os.World (Unit {0})
  next_request again read = if ltb 0 read then again else pure tt

  unfoldable pub after_file : Io os.World (Unit {0}) → ℕ → ℕ → Io os.World (Unit {0})
  unfolding next_request
  after_file again read sent = if sent == 0 then pure tt else next_request again read

  unfoldable pub answer : ℕ → Io os.World (Unit {0}) → ℕ → Request → Io os.World (Unit {0})
  unfolding close_and_leave after_file
  answer rounds again read quit = close_and_leave
  answer rounds again read (get filename) =
      send_file os fuel connfd rounds filename buflen >>= after_file again read
  answer rounds again read wrong_format = error_msg os connfd
  answer rounds again read overrun = stop undefined

  -- Without a terminator in the buffer, `printf` and `strncmp` read past its end.
  unfoldable pub answer_string :
      ℕ → Io os.World (Unit {0}) → ℕ → Option (List ℕ) → Io os.World (Unit {0})
  unfolding answer parse_request
  answer_string rounds again read none = stop undefined
  answer_string rounds again read (some s) = answer rounds again read (parse_request s)

  unfoldable pub received : ℕ → Io os.World (Unit {0}) → List ℕ → Io os.World (Unit {0})
  unfolding answer_string string_in
  received rounds again bs = answer_string rounds again (length bs) (string_in buflen bs)

  unfoldable pub check_error : ℕ → Io os.World (Unit {0}) → ℕ → Io os.World (Unit {0})
  unfolding received close_and_leave
  check_error rounds again errorvalue =
      if errorvalue == 0
      then (Wrap.read os fuel connfd buflen >>= received rounds again)
      else close_and_leave

  -- `select` is called without its wrapper: -1 is taken for a ready socket.
  unfoldable pub after_select :
      ℕ → Io os.World (Unit {0}) → Option (List Fd) → Io os.World (Unit {0})
  unfolding check_error close_and_leave
  after_select rounds again none = Wrap.getsockopt_error os connfd >>= check_error rounds again
  after_select rounds again (some ready) =
      if length ready == ebadf
      then close_and_leave
      else if length ready == 0
      then close_and_leave
      else (Wrap.getsockopt_error os connfd >>= check_error rounds again)

  -- `do … while (read > 0)`, with fuel for the requests of the client and for the pieces of a file
  unfoldable pub service_loop : ℕ → ℕ → Io os.World (Unit {0})
  unfolding after_select
  service_loop rounds zero w = (out_of_fuel, w)
  service_loop rounds (suc requests) w =
      (call (os.select (connfd ∷ []) (some timeout_seconds))
          >>= after_select rounds (service_loop rounds requests))
        w

  unfoldable pub after_malloc : ℕ → ℕ → Bool → Io os.World (Unit {0})
  unfolding service_loop
  after_malloc rounds requests false = fatal_error os 3
  after_malloc rounds requests true = service_loop rounds requests

  unfoldable pub service : ℕ → ℕ → Io os.World (Unit {0})
  unfolding after_malloc
  service rounds requests = call (os.malloc buflen) >>= after_malloc rounds requests

module _ (os : Os) (fuel rounds requests : ℕ) (sockfd : Fd) (buflen : ℕ) where
  -- The loop has no end: this is its run over the first `clients` connections.
  unfoldable pub serve_client : ℕ → Io os.World (Unit {0})
  unfolding service
  serve_client zero w = (ok tt, w)
  serve_client (suc clients) w =
      (Wrap.accept os fuel sockfd >>= λ connfd.
      service os fuel connfd buflen rounds requests >> serve_client clients)
        w
