-- ===== src/Sockwrap/Runs.antt =====
-- The loops of sockwrap.c on the machine of `Loopback`, at concrete inputs.
use dp.Base.{
  ℕ, ◌≤◌, ◌≡◌, refl, drop, arith, false, none, some, List, [], ◌∷◌, length, drop, replicate, take,
}
use dp.Os.Io.{ok}
use dp.Os.Net.{emit, consume}
use dp.Os.Loopback.{Machine, loopback, view}
use dp.Os.Loopback.Laws.{loopback_reliable}
use dp.Sockwrap.Exact.{readn, writen}
use dp.Sockwrap.Exact.Reading.{readn-Took}
use dp.Sockwrap.Exact.Writing.{writen-Gave}
use dp.Sockwrap.Lines.{readline, readline_unbuffered}
use dp.Sockwrap.Lines.Loop.{take_line, line_count}
use dp.Sockwrap.Lines.Buffered.{pending, readline-reads}
use dp.Sockwrap.Lines.Unbuffered.{readline_unbuffered-reads}

-- Ten bytes on every descriptor; two calls are interrupted, and three bytes move at a time.
abbrev ten_bytes : Machine
ten_bytes = record {
  net = record {
    incoming = λ fd. replicate 10 b'x';
    sent = λ fd. [];
    under = λ fd. [];
    is_open = λ fd. false;
    file_of = λ fd. record { content = []; mtime = 0 };
    is_file = λ fd. false;
    written = λ name. none;
    disk = λ name. none;
  };
  closed = λ fd. false;
  next_fd = 4;
  interrupts = 2;
  chunk = 2;
  last_error = 0;
  typed = [];
  waiting = [];
}

readn-Took_example :
    (w' : Machine) × (readn loopback 11 3 8 ten_bytes
      ≡ (ok (some (take 8 ((view ten_bytes).incoming 3))), w'))
    × (view w' ≡ consume 3 8 (view ten_bytes))
    × (w'.interrupts ≤ 2)
readn-Took_example = readn-Took loopback loopback_reliable 11 3 8 ten_bytes (omega arith)

writen-Gave_example :
    (w' : Machine) × (writen loopback 11 3 (replicate 8 b'y') ten_bytes ≡ (ok (some 8), w'))
    × (view w' ≡ emit 3 (replicate 8 b'y') (view ten_bytes))
    × (w'.interrupts ≤ 2)
writen-Gave_example =
    writen-Gave loopback loopback_reliable 11 3 (replicate 8 b'y') ten_bytes (omega arith)

-- The stream `abc\nd` on every descriptor.
abbrev two_lines : ℕ → Machine
two_lines interrupts = record ten_bytes {
  net = record ten_bytes.net { incoming = λ fd. b'a' ∷ b'b' ∷ b'c' ∷ 10 ∷ b'd' ∷ [] };
  interrupts = interrupts;
}

readline-reads_example :
    (buffer' : List ℕ) × (w' : Machine) × (readline loopback 5 3 9 (b'z' ∷ []) (two_lines 2) ≡ (
      ok (
        some (
          line_count 0 8 (b'z' ∷ b'a' ∷ b'b' ∷ b'c' ∷ 10 ∷ b'd' ∷ []),
          take_line 8 (b'z' ∷ b'a' ∷ b'b' ∷ b'c' ∷ 10 ∷ b'd' ∷ []),
        ),
        buffer',
      ),
      w',
    ))
    × (pending loopback loopback_reliable 5 3 buffer' w'
        ≡ drop
            (length (take_line 8 (b'z' ∷ b'a' ∷ b'b' ∷ b'c' ∷ 10 ∷ b'd' ∷ [])))
            (b'z' ∷ b'a' ∷ b'b' ∷ b'c' ∷ 10 ∷ b'd' ∷ []))
    × ((n : ℕ) × (view w' ≡ consume 3 n (view (two_lines 2))))
readline-reads_example =
    readline-reads loopback loopback_reliable 5 3 8 (b'z' ∷ []) (two_lines 2) (omega arith)

readline_unbuffered-reads_example :
    (w' : Machine) × (readline_unbuffered loopback 3 9 (two_lines 0) ≡ (
      ok (
          some (
            line_count 0 8 (b'a' ∷ b'b' ∷ b'c' ∷ 10 ∷ b'd' ∷ []),
            take_line 8 (b'a' ∷ b'b' ∷ b'c' ∷ 10 ∷ b'd' ∷ []),
          )),
      w',
    ))
    × (view w'
        ≡ consume 3
            (length (take_line 8 (b'a' ∷ b'b' ∷ b'c' ∷ 10 ∷ b'd' ∷ [])))
            (view (two_lines 0)))
    × (w'.interrupts ≡ 0)
readline_unbuffered-reads_example =
    readline_unbuffered-reads loopback loopback_reliable 3 8 (two_lines 0) refl
