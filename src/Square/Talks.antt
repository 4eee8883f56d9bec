-- ===== src/Square/Talks.antt =====
-- The clients of the square servers on the machine of `Loopback`, at concrete inputs.
use dp.Base.{
  ℕ, ◌-◌, ◌*◌, ◌%◌, ◌^◌, ◌<◌, ◌≡◌, ◌↔◌, refl, arith, true, false, none, some, List, [], ◌∷◌, ◌++◌,
  if◌then◌else◌, ◌==◌,
}
use dp.Base.Scan.{skip_spaces, is_space}
use dp.Base.Int.{pos, square}
use dp.Base.Words.{htonl_bytes, ntohl_bytes}
use dp.Os.Io.{ok}
use dp.Os.Net.{consume, emit, shut}
use dp.Os.Loopback.{Machine, loopback, view, next_line, read_with, write_with}
use dp.Os.Loopback.Laws.{loopback_reliable}
use dp.Sockwrap.Setup.{Network}
use dp.SumServer.Decimal.{
  c_string, is_digit, span_digits, value, to_ulong, fit_unsigned, scan_digits, scan_signed,
  scan_unsigned,
}
use dp.Square.Rfc.{
  put_hyper, put_all, put_sequence, in_room, get_u32, get_hyper, after_high, join_words, of_word,
  first_of, rfc_hyper, rfc_sequence,
}
use dp.Square.Rfc.Laws.{rfc_hyper-HyperLaws, rfc_sequence-SequenceLaws}
use dp.Square.Post.{post, post_laws, mail, alice, letter}
use dp.Square.Simple.{service, answer_request, reply_square, send_reply, check_sent}
use dp.Square.Client.{uint_limit, shown, shown_sequence, simple_turn}
use dp.Square.Client.Exchange.{simple_turn-shows}
use dp.Square.Tcp.{converse}
use dp.Square.Tcp.Turn.{converse-shows}

-- A client on descriptor 3, where `stream` comes in, at which `lines` are typed.
abbrev talking : List (List ℕ) → List ℕ → Machine
talking lines stream = record {
  net = record {
    incoming = λ fd. if fd == 3 then stream else [];
    sent = λ fd. [];
    under = λ fd. [];
    is_open = λ fd. false;
    file_of = λ fd. record { content = []; mtime = 0 };
    is_file = λ fd. false;
    written = λ name. none;
    disk = λ name. none;
  };
  closed = λ fd. false;
  next_fd = 4;
  interrupts = 0;
  chunk = 100;
  last_error = 0;
  typed = lines;
  waiting = [];
}

-- 70000 is typed, and the answer to it has come.
abbrev large_line : List ℕ
large_line = b'7' ∷ b'0' ∷ b'0' ∷ b'0' ∷ b'0' ∷ 10 ∷ []

abbrev large_answer : List ℕ
large_answer = put_hyper (pos 70000) ++ put_hyper (pos (70000 * 70000))

abbrev start : Machine
start = talking (large_line ∷ []) large_answer

abbrev after_typing : Machine
after_typing = (loopback.fgets 512 start).1

abbrev after_sending : Machine
after_sending = (loopback.send 3 (put_hyper (pos 70000)) 0 after_typing).1

simple_turn-shows_example :
    (simple_turn loopback rfc_hyper 3 start
      ≡ (ok (shown 70000 (70000 * 70000 % 2 ^ 32)), (loopback.recv 3 511 0 after_sending).1))
    × ((70000 * 70000 % 2 ^ 32 ≡ 70000 * 70000) ↔ (70000 < 2 ^ 16))
unfolding next_line read_with write_with c_string scan_unsigned scan_signed scan_digits span_digits
    is_digit value to_ulong fit_unsigned skip_spaces is_space in_room put_hyper htonl_bytes
    ntohl_bytes get_hyper get_u32 after_high join_words of_word first_of service answer_request
    reply_square send_reply check_sent square consume emit
simple_turn-shows_example =
    simple_turn-shows rfc_hyper rfc_hyper-HyperLaws post 5 (post_laws 5) loopback 3 70000 large_line
      (10 ∷ []) (put_hyper (pos 70000)) alice (letter large_answer) start after_typing after_sending
      after_sending (loopback.recv 3 511 0 after_sending).1 (mail []) refl refl (omega arith) refl
      refl refl refl refl

-- Sockets are made and connected without fail.
abbrev open_network : Network Machine
open_network = record {
  getaddrinfo = λ node service hints w. (none, w);
  socket = λ family socktype protocol w. (some 3, w);
  bind = λ fd addr addrlen w. (true, w);
  listen = λ fd backlog w. (true, w);
  connect = λ fd addr addrlen w. (true, w);
  listenq = λ w. none;
}

abbrev pair_answer : List ℕ
pair_answer =
    put_sequence (pos 3 ∷ pos 70000 ∷ []) ++ put_sequence (pos 9 ∷ pos (70000 * 70000) ∷ [])

abbrev pair_request : List ℕ
pair_request = put_sequence (pos 3 ∷ pos 70000 ∷ [])

converse-shows_example :
    (w' : Machine) × (converse loopback open_network
        (rfc_sequence (uint_limit - 1))
        100
        alice
        3
        (some pair_request)
        (talking [] pair_answer)
      ≡ (ok (shown_sequence 2 2 ((3, 3 * 3 % 2 ^ 32) ∷ (70000, 70000 * 70000 % 2 ^ 32) ∷ [])), w'))
    × (view w' ≡ shut 3 (consume 3 40 (emit 3 pair_request (view (talking [] pair_answer)))))
unfolding in_room put_sequence put_all put_hyper htonl_bytes
converse-shows_example =
    converse-shows loopback loopback_reliable open_network (rfc_sequence (uint_limit - 1))
      (rfc_sequence-SequenceLaws (uint_limit - 1) (omega arith)) 100 alice 3 3 70000 pair_request
      pair_answer [] (talking [] pair_answer) (omega arith) (omega arith) refl refl (omega arith)
      (omega arith)
