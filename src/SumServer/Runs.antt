-- ===== src/SumServer/Runs.antt =====
-- Connections of the sum server on the machine of `Loopback`.
use dp.Base.{ℕ, ◌≡◌, refl, arith, false, none, List, [], ◌∷◌, ◌++◌, length, ◌==◌, if◌then◌else◌}
use dp.Os.Io.{ok, pure, ◌>>◌}
use dp.Sockwrap.Wrap
use dp.SumServer.Xdr.{IntStreams}
use dp.SumServer.Main.{lines, converse_by, accept_loop, accept_loop-ByAccept}
use dp.Os.Net.{consume}
use dp.Os.Loopback.{Machine, loopback, view, accept_next}
use dp.Os.Loopback.Laws.{loopback_reliable}
use dp.Sockwrap.Lines.Loop.{take_line, line_count}
use dp.SumServer.{prot_a}
use dp.SumServer.Laws.{LineOutcome, prot_a-Outcome}
use dp.SumServer.Laws.Clients.{requests, answers, prot_a-serves}

-- A client on descriptor 4 that has sent `stream`; five bytes move at a time, and no signal comes.
abbrev client : List ℕ → Machine
client stream = record {
  net = record {
    incoming = λ fd. if fd == 4 then stream else [];
    sent = λ fd. [];
    under = λ fd. [];
    is_open = λ fd. false;
    file_of = λ fd. record { content = []; mtime = 0 };
    is_file = λ fd. false;
    written = λ name. none;
    disk = λ name. none;
  };
  closed = λ fd. false;
  next_fd = 5;
  interrupts = 0;
  chunk = 4;
  last_error = 0;
  typed = [];
  waiting = [];
}

-- A line with one number only.
abbrev one_number : List ℕ
one_number = b'1' ∷ b'2' ∷ 13 ∷ 10 ∷ []

prot_a-Outcome_example :
    (w1 : Machine) × (view w1
      ≡ consume 4 (length (take_line 254 one_number)) (view (client one_number)))
    × LineOutcome loopback loopback_reliable 20 4
        (prot_a loopback 20 4 1)
        (view w1)
        (line_count 0 254 one_number)
        (take_line 254 one_number)
        (prot_a loopback 20 4 2 (client one_number))
prot_a-Outcome_example =
    prot_a-Outcome loopback loopback_reliable 20 4 1 (client one_number) (omega arith) refl

abbrev pairs : List (ℕ × ℕ)
pairs = (3, 40) ∷ (65535, 1) ∷ []

prot_a-serves_example :
    (w' : Machine) × (prot_a loopback 20 4 3 (client (requests pairs)) ≡ (ok 0, w'))
    × ((view w').sent 4 ≡ [] ++ answers pairs)
prot_a-serves_example =
    prot_a-serves loopback loopback_reliable 20 4 pairs 3 (client (requests pairs))
      (omega arith, omega arith, (omega arith, omega arith, tt)) (omega arith) (omega arith) refl
      refl

-- `prot_x` is not run here: streams that cannot be opened.
abbrev no_streams : IntStreams Machine
no_streams = record {
  fdopen_read = λ fd w. (none, w);
  fdopen_write = λ fd w. (none, w);
  read_int = λ f w. (none, w);
  write_int = λ f v w. (false, w);
  flush = λ f w. (tt, w);
  fclose = λ f w. (tt, w);
}

-- A client that waits, with one line.
abbrev one_waiting : Machine
one_waiting = record (client []) { waiting = one_number ∷ [] }

accept_loop-ByAccept_example :
    accept_loop loopback no_streams 20 4 3 lines 5 (pure 0) one_waiting
    ≡ (converse_by loopback no_streams 20 4 3 lines lines 5 >> pure 0)
        ((Wrap.accept loopback 5 3 one_waiting).1)
unfolding Wrap.accept Wrap.retry_accept accept_next
accept_loop-ByAccept_example =
    accept_loop-ByAccept loopback no_streams 20 4 3 lines (pure 0) 5 one_waiting
