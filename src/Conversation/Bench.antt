-- ===== src/Conversation/Bench.antt =====
-- Two machines made from `Loopback`: one on which the messages arrive in one piece, and one whose
-- `select` brings the next piece of a script.
use dp.Base.{
  ℕ, zero, suc, ◌+◌, ap, ◌≤◌, ◌≡◌, refl, arith, some, List, [], ◌∷◌, Option, length, min,
  length-take,
}
use dp.Os.Calls.{Fd, Os}
use dp.Os.Net.{arrive}
use dp.Os.Reliable.{Reliable, OnePiece, Prompt}
use dp.Os.Loopback.{Machine, loopback, read_with, view}
use dp.Os.Loopback.Laws.{
  loopback_reliable, read_with-Interrupted, read_with_delivers, read_with_end,
}
use mathlib.Core.Option.{some-injective, none-ne-some}
use native.Mathlib.Nat.{le_refl}

-- A read takes up to `n` bytes, whatever the size of a piece was.
abbrev pub whole_read : Fd → ℕ → Machine → Option (List ℕ) × Machine
whole_read fd n w = read_with w.interrupts fd n (record w { chunk = n })

abbrev pub whole_os : Os
whole_os = record loopback { read = whole_read }

abbrev pub whole_reliable : Reliable whole_os
whole_reliable = record {
  view = view;
  patience = λ w. w.interrupts;
  read_interrupted = λ fd n w. read_with-Interrupted fd n (record w { chunk = n }) w.interrupts;
  read_delivers =
      λ fd n w bs. read_with_delivers fd n (record w { chunk = n }) w.interrupts bs refl;
  read_end = λ fd n w. read_with_end fd n (record w { chunk = n }) w.interrupts;
  write_interrupted = loopback_reliable.write_interrupted;
  write_accepts = loopback_reliable.write_accepts;
  recv_interrupted = loopback_reliable.recv_interrupted;
  recv_delivers = loopback_reliable.recv_delivers;
  recv_end = loopback_reliable.recv_end;
  send_interrupted = loopback_reliable.send_interrupted;
  send_accepts = loopback_reliable.send_accepts;
  file_write_lem = loopback_reliable.file_write_lem;
  malloc_lem = loopback_reliable.malloc_lem;
  open_create_lem = loopback_reliable.open_create_lem;
  close_lem = loopback_reliable.close_lem;
  so_error_lem = loopback_reliable.so_error_lem;
  open_read_missing = loopback_reliable.open_read_missing;
  open_read_found = loopback_reliable.open_read_found;
  fstat_lem = loopback_reliable.fstat_lem;
}

pub whole_os-Prompt : (fd : Fd) → Prompt whole_os whole_reliable fd
whole_os-Prompt fd limit w = (refl, refl, le_refl _)

whole_read_all :
    (k : ℕ) (fd n : ℕ) (w : Machine) (bs : List ℕ)
    → (read_with k fd n (record w { chunk = n })).0 ≡ some bs
    → length (w.net.incoming fd) ≤ n
    → length (w.net.incoming fd) ≤ length bs
unfolding read_with
whole_read_all zero fd n w bs e h =
    omega (arith, ap length (some-injective _ _ e), length-take (min n (n + 1)) (w.net.incoming fd))
whole_read_all (suc k) fd n w bs e h = absurd (none-ne-some _ e)

pub whole_os-OnePiece : (fd : Fd) → OnePiece whole_os whole_reliable fd
whole_os-OnePiece fd n w bs e h = whole_read_all w.interrupts fd n w bs e h

-- The script is the list of what is waiting.
unfoldable pub bring : List Fd → List (List ℕ) → Machine → Machine
bring [] pieces w = w
bring (fd ∷ fds) [] w = w
bring (fd ∷ fds) (bs ∷ rest) w = record w { net = arrive fd bs w.net; waiting = rest }

abbrev pub scripted_os : Os
scripted_os = record loopback { select = λ fds limit w. (some fds, bring fds w.waiting w) }

abbrev pub scripted_reliable : Reliable scripted_os
scripted_reliable = record {
  view = view;
  patience = λ w. w.interrupts;
  read_interrupted = loopback_reliable.read_interrupted;
  read_delivers = loopback_reliable.read_delivers;
  read_end = loopback_reliable.read_end;
  write_interrupted = loopback_reliable.write_interrupted;
  write_accepts = loopback_reliable.write_accepts;
  recv_interrupted = loopback_reliable.recv_interrupted;
  recv_delivers = loopback_reliable.recv_delivers;
  recv_end = loopback_reliable.recv_end;
  send_interrupted = loopback_reliable.send_interrupted;
  send_accepts = loopback_reliable.send_accepts;
  file_write_lem = loopback_reliable.file_write_lem;
  malloc_lem = loopback_reliable.malloc_lem;
  open_create_lem = loopback_reliable.open_create_lem;
  close_lem = loopback_reliable.close_lem;
  so_error_lem = loopback_reliable.so_error_lem;
  open_read_missing = loopback_reliable.open_read_missing;
  open_read_found = loopback_reliable.open_read_found;
  fstat_lem = loopback_reliable.fstat_lem;
}
