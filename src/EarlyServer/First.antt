-- ===== src/EarlyServer/First.antt =====
-- lab2/es3/server.c: the server before those, which reads one request of each client and sends no
-- file. Its function `error` does what `error_msg` of the later servers does.
pub mod Rounds
use dp.Base.{
  ℕ, zero, suc, ◌+◌, ◌≤◌, ◌<◌, ◌≡◌, refl, sym, ap, ◌∙◌, arith, Bool, true, false, ◌&&◌, Option,
  none, some, List, [], ◌∷◌, ◌++◌, length, take, ltb, if◌then◌else◌,
}
use dp.Base.Scan.{before_nul, Scanned, no_word, one_word, two_words, scan_two_words}
use dp.Os.Calls.{Fd, FileName, Os}
use dp.Os.Io.{quit as leave_with, Io, Result, ok, undefined, pure, stop, call, ◌>>=◌, ◌>>◌}
use dp.Os.Net.{Net, emit, consume, shut, same_name}
use dp.Os.Reliable.{Reliable}
use dp.Sockwrap.Wrap
use dp.Sockwrap.Wrap.Laws.{Delivered, read-Delivers, close-Reaches}
use dp.Sockwrap.Setup
use dp.Sockwrap.Setup.{Network}
use dp.SumServer.Decimal.{Scan, no_number, unfit, number, scan_ushort}
use dp.FileServer.Defs.{quit_line, get_word, command_len, filename_len, err_message, error_msg}
use dp.FileServer.Service.{Request, quit, get, wrong_format, overrun}
use dp.EarlyServer.Requests.{overwrite}
use dp.EarlyServer.Mains.{n_listen}

abbrev pub first_buflen : ℕ
first_buflen = 512

-- `strcmp` on the whole text and on the whole first word; the two words go into arrays.
unfoldable pub request_of_scan : Scanned → Request
request_of_scan no_word = wrong_format
request_of_scan (one_word command) =
    if ltb (length command) command_len then wrong_format else overrun
request_of_scan (two_words command filename) =
    if ltb (length command) command_len && ltb (length filename) filename_len
    then (if same_name command get_word then get filename else wrong_format)
    else overrun

-- Without a terminator in the buffer `printf` reads past its end.
unfoldable pub request_of : Option (List ℕ) → Request
unfolding request_of_scan scan_two_words
request_of none = overrun
request_of (some s) = if same_name s quit_line then quit else request_of_scan (scan_two_words s)

module _ (os : Os) (connfd : Fd) where
  -- `send_file` has an empty body.
  unfoldable pub send_nothing : FileName → Io os.World (Unit {0})
  send_nothing filename = pure tt

  unfoldable pub answer_one : Request → Io os.World (Unit {0})
  unfolding send_nothing
  answer_one quit = Wrap.close os connfd
  answer_one (get filename) = send_nothing filename
  answer_one wrong_format = error_msg os connfd
  answer_one overrun = stop undefined

  unfoldable pub received_one : List ℕ → List ℕ → Io os.World (List ℕ)
  unfolding answer_one overwrite request_of before_nul
  received_one buf bs = do
    answer_one (request_of (before_nul (overwrite bs buf)))
    pure (overwrite bs buf)

  -- One connection: the buffer, as it was left by the one before, goes in and out.
  unfoldable pub serve_one : ℕ → List ℕ → Io os.World (List ℕ)
  unfolding received_one
  serve_one fuel buf = Wrap.read os fuel connfd first_buflen >>= received_one buf

-- `any_address` is the socket address of a port; `fill` are the bytes that a block of memory holds
-- when it is allocated.
module _ (os : Os) (net : Network os.World) (any_address : ℕ → List ℕ) (fuel : ℕ)
    (fill : ℕ → List ℕ) where
  -- `while (1)`, for a number of connections
  unfoldable pub one_each : Fd → ℕ → List ℕ → Io os.World (Unit {0})
  unfolding serve_one
  one_each sockfd zero buf w = (ok tt, w)
  one_each sockfd (suc clients) buf w =
      (Wrap.accept os fuel sockfd >>= λ connfd.
      serve_one os connfd fuel buf >>= one_each sockfd clients)
        w

  unfoldable pub with_memory : Fd → ℕ → ℕ → Bool → Io os.World (Unit {0})
  unfolding one_each
  with_memory sockfd port clients false = leave_with 2
  with_memory sockfd port clients true = do
    Setup.bind net sockfd (any_address port) 16
    Setup.listen net sockfd n_listen
    one_each sockfd clients (fill first_buflen)

  -- The port is not tested; without a number in the argument it was never stored.
  unfoldable pub on_port : ℕ → Scan → Io os.World (Unit {0})
  unfolding with_memory
  on_port clients no_number = stop undefined
  on_port clients unfit = stop undefined
  on_port clients (number port rest) = do
    sockfd ← Setup.socket net 2 1 6
    call (os.malloc first_buflen) >>= with_memory sockfd port clients

  unfoldable pub first_main : List (List ℕ) → ℕ → Io os.World (Unit {0})
  unfolding on_port
  first_main (port ∷ []) clients = on_port clients (scan_ushort port)
  first_main [] clients = leave_with 1
  first_main (port ∷ other ∷ more) clients = leave_with 1
