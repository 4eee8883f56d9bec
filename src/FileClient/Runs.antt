-- ===== src/FileClient/Runs.antt =====
-- Runs of the client on the machine of `Loopback`, and the theorems at concrete inputs.
use dp.Base.{
  ◌<◌, ℕ, ◌≤◌, ◌≡◌, refl, arith, Bool, true, Option, ◌&&◌, false, none, some, List, [], ◌∷◌, ◌++◌,
  length, drop, replicate, ◌==◌, if◌then◌else◌,
}
use dp.Os.Calls.{Fd, Stat, Os}
use dp.Os.Io.{ok, exit}
use dp.Os.Net.{emit, stored, held}
use dp.Os.Loopback.{next_line, Machine, loopback, view, is_open_now}
use dp.Os.Errno.{ebadf}
use dp.FileClient.Session.Closed.{Forgets, answered-exits}
use dp.Os.Loopback.Laws.{loopback_reliable}
use dp.Base.Scan.{string_in, is_space}
use dp.FileServer.Service.{parse_request, get}
use dp.FileClient.Batch.{receive_argument, receive_argument-receive_file}
use dp.FileClient.Session.{session, answered, first_byte}
use dp.FileClient.Session.Quit.{session-quit}
use dp.FileClient.Commands.{quit_command}
use dp.FileServer.Service.{quit}
use dp.Sockwrap.Wrap
use dp.FileClient.Commands.{send_get}
use dp.FileClient.Commands.Laws.{send_get-parse_request}
use dp.FileClient.Receive.{receive_file}
use dp.FileClient.Receive.Saved.{answer_after_plus, receive_file-saves}

abbrev words : List ℕ
words = b't' ∷ b'e' ∷ b'x' ∷ b't' ∷ []

abbrev old_words : List ℕ
old_words = replicate 6 b'o'

abbrev stat_of_size : ℕ → Stat
stat_of_size size = record { st_size = size; st_mtime = 1600000000 }

-- A connection on descriptor 3, and a disk that holds a longer file under every name.
abbrev connected : List ℕ → Machine
connected answer = record {
  net = record {
    incoming = λ fd. if fd == 3 then answer else [];
    sent = λ fd. [];
    under = λ fd. [];
    is_open = λ fd. false;
    file_of = λ fd. record { content = []; mtime = 0 };
    is_file = λ fd. false;
    written = λ name. none;
    disk = λ name. some (record { content = old_words; mtime = 0 });
  };
  closed = λ fd. false;
  next_fd = 4;
  interrupts = 2;
  chunk = 1;
  last_error = 0;
  typed = [];
  waiting = [];
}

abbrev file_name : List ℕ
file_name = b'a' ∷ b'.' ∷ b'c' ∷ []

receive_file-saves_example :
    (fd : Fd) × (w' : Machine) × ((view
          (connected (answer_after_plus (stat_of_size 4) words))).is_open
        fd
      ≡ false)
    × (receive_file loopback 10 3 16 9
          (file_name ++ (10 ∷ []))
          (connected (answer_after_plus (stat_of_size 4) words))
        ≡ (ok tt, w'))
    × (stored fd (view w')
        ≡ words
          ++ drop
              (length words)
              (held file_name (view (connected (answer_after_plus (stat_of_size 4) words)))))
    × (held file_name (view w')
        ≡ words
          ++ drop
              (length words)
              (held file_name (view (connected (answer_after_plus (stat_of_size 4) words)))))
    × ((view w').is_open fd ≡ false)
    × ((view w').incoming 3 ≡ [])
    × (w'.interrupts ≤ (connected (answer_after_plus (stat_of_size 4) words)).interrupts)
receive_file-saves_example =
    receive_file-saves loopback loopback_reliable 10 3 16 (stat_of_size 4) words
      (connected (answer_after_plus (stat_of_size 4) words)) refl (omega arith) 9 file_name 10
      (omega arith) refl (omega arith) (omega arith)

send_get-parse_request_example :
    (w' : Machine) × (request : List ℕ) × (send_get loopback 10 3
        ((b'G' ∷ []) ++ (32 ∷ (file_name ++ (10 ∷ []))))
        (connected [])
      ≡ (ok tt, w'))
    × (view w' ≡ emit 3 request (view (connected [])))
    × ((size : ℕ) → length request < size → string_in size request ≡ some request)
    × (parse_request request ≡ get file_name)
send_get-parse_request_example =
    send_get-parse_request loopback loopback_reliable 10 3 b'G' b'a' [] (b'.' ∷ b'c' ∷ [])
      (connected []) (unfold is_space in (refl, tt)) (unfold is_space in (refl, (refl, (refl, tt))))
      (omega arith, tt) (omega arith, (omega arith, (omega arith, tt))) (omega arith) (omega arith)

-- `QUIT` is typed.
abbrev typing : Machine
typing = record (connected []) { typed = (b'Q' ∷ b'U' ∷ b'I' ∷ b'T' ∷ 10 ∷ []) ∷ [] }

session-quit_example :
    (w' : Machine) × (session loopback 10 9 3 16 2
        (record { receive_buffer = none; abort = false })
        typing
      ≡ (ok 0, w'))
    × (view w' ≡ emit 3 quit_command (view typing))
    × (parse_request quit_command ≡ quit)
unfolding next_line Wrap.select Wrap.retry_select
session-quit_example =
    session-quit loopback loopback_reliable 10 9 3 16 1 none false (3 ∷ [])
      (b'U' ∷ b'I' ∷ b'T' ∷ 10 ∷ []) typing typing refl refl (omega arith)

receive_argument-receive_file_example :
    receive_file loopback 10 3 16 9
      (file_name ++ (10 ∷ []))
      (connected (answer_after_plus (stat_of_size 4) words))
    ≡ receive_argument loopback 10 3 16 9 file_name
        (connected (answer_after_plus (stat_of_size 4) words))
receive_argument-receive_file_example =
    receive_argument-receive_file loopback 10 3 16 9 file_name 10
      (connected (answer_after_plus (stat_of_size 4) words))

-- The machine of `Loopback`, on which `select` fails for a set with a closed descriptor.
abbrev all_open : List Fd → Machine → Bool
all_open [] w = true
all_open (fd ∷ fds) w = is_open_now w fd && all_open fds w

abbrev select_open : List Fd → Machine → Option (List Fd) × Machine
select_open fds w =
    if all_open fds w then (some fds, w) else (none, record w { last_error = ebadf })

abbrev forgetful : Os
forgetful = record loopback { select = λ fds limit w. select_open fds w }

and_false : (a : Bool) → (a && (false && true)) ≡ false
and_false true = refl
and_false false = refl

forgetful-Forgets : Forgets forgetful
forgetful-Forgets = record {
  is_open = is_open_now;
  close_closes = λ fd w e. ground arith;
  select_closed = λ fd other limit w e. rw (e, and_false (is_open_now w other)) (refl, refl);
}

answered-exits_example :
    (w' : Machine) × (answered forgetful 10 9 3 16
        (session forgetful 10 9 3 16 8)
        false
        file_name
        (b'-' ∷ [])
        (connected [])
      ≡ (exit 1, w'))
unfolding first_byte
answered-exits_example =
    answered-exits forgetful forgetful-Forgets 10 9 3 16 7 false file_name (b'-' ∷ [])
      (connected []) (omega arith) (omega arith)
