-- ===== src/EarlyServer/Runs.antt =====
-- The theorems about server1 and server2 on concrete machines.
use dp.Base.{
  ℕ, ◌↔◌, ◌++◌, ◌≡◌, refl, arith, true, false, Option, none, some, List, [], ◌∷◌, length, replicate,
  if◌then◌else◌,
}
use dp.Os.Calls.{Fd, Os}
use dp.Os.Io.{ok, exit}
use dp.Os.Net.{emit, consume, opened}
use dp.Os.Loopback.{Machine, loopback, view, is_open_now}
use dp.Os.Loopback.Laws.{loopback_reliable, loopback-Prompt}
use dp.Sockwrap.Wrap.Laws.{Delivered}
use dp.FileServer.SendFile.Kept.{kept}
use dp.FileServer.Service.{quit, get}
use dp.FileServer.Service.Rounds.{Serves, file_answer}
use dp.FileServer.Bench.{idle, notes, notes_name, request, idle-Serves, only_notes}
use dp.EarlyServer.Requests.{overwrite, request_in, received, request_loop}
use dp.EarlyServer.Rounds.{RequestOutcome, request_loop-Outcome}
use dp.Base.Scan.{before_nul}
use dp.FileServer.Defs.{quit_line}
use dp.EarlyServer.First.{request_of, serve_one}
use dp.EarlyServer.First.Rounds.{OneOutcome, serve_one-OneOutcome, request_of-quit_iff}
use dp.EarlyServer.Faults.{Strict, request_loop-repeats, received-exits}

abbrev empty_buffer : List ℕ
empty_buffer = replicate 50 0

request_loop-Outcome_example :
    (bs : List ℕ) × (w' : Machine) × Delivered loopback loopback_reliable 4 50 bs (idle request) w'
    × RequestOutcome loopback loopback_reliable 100 4 50 30 30 false
        (request_loop loopback 100 4 50 30 30 false 2)
        (length bs)
        (overwrite bs empty_buffer)
        (view w')
        (request_in (overwrite bs empty_buffer))
        (request_loop loopback 100 4 50 30 30 false 3 empty_buffer (idle request))
request_loop-Outcome_example =
    request_loop-Outcome loopback loopback_reliable 100 4 50 30 30 false 2 empty_buffer
      (idle request) idle-Serves

-- The client has closed its side; the last request still stands in the buffer.
abbrev stale_buffer : List ℕ
stale_buffer = overwrite request empty_buffer

idle_end-Serves : Serves loopback loopback_reliable 100 4 50 30 (idle [])
idle_end-Serves = record {
  prompt = loopback-Prompt 4;
  unwritten = λ name. refl;
  in_range = λ name f e. rw (only_notes name f e) (omega arith);
  enough_rounds = λ name f e. rw (only_notes name f e) (omega arith);
  large = omega arith;
  enough = omega arith;
}

stale_request : request_in stale_buffer ≡ get notes_name
unfolding overwrite request_in
stale_request = refl

request_loop-repeats_example :
    (fd : Fd) × (w' : Machine) × (request_loop loopback 100 4 50 30 2 true 3 stale_buffer (idle [])
      ≡ (ok stale_buffer, w'))
    × (view w'
        ≡ emit 4
            (file_answer loopback loopback_reliable 100 4 50 30 notes)
            (consume fd (kept 20 50) (opened fd notes (view (idle [])))))
request_loop-repeats_example =
    request_loop-repeats loopback loopback_reliable 100 4 50 30 2 true 2 stale_buffer (idle [])
      notes_name notes idle_end-Serves refl stale_request refl

-- The machine of `Loopback`, on which calls on a closed descriptor fail.
abbrev select_open : List Fd → Machine → Option (List Fd) × Machine
select_open [] w = (some [], w)
select_open (fd ∷ fds) w = if is_open_now w fd then (some (fd ∷ fds), w) else (none, w)

abbrev error_if_open : Fd → Machine → Option ℕ × Machine
error_if_open fd w = if is_open_now w fd then (some 0, w) else (none, w)

abbrev strict_loopback : Os
strict_loopback = record loopback {
  select = λ fds limit w. select_open fds w;
  so_error = error_if_open;
}

strict_laws : Strict strict_loopback
strict_laws = record {
  is_open = is_open_now;
  close_closes = λ fd w e. ground arith;
  select_closed = λ fd limit w e. rw e (refl, e);
  so_error_closed = λ fd w e. rw e refl;
}

received-exits_example :
    (w' : Machine) × (received strict_loopback 100 4 50 30 30 false
        (request_loop strict_loopback 100 4 50 30 30 false 3)
        empty_buffer
        (b'H' ∷ b'I' ∷ 13 ∷ 10 ∷ [])
        (idle [])
      ≡ (exit 1, w'))
unfolding overwrite request_in
received-exits_example =
    received-exits strict_loopback strict_laws 100 4 50 30 30 2 empty_buffer
      (b'H' ∷ b'I' ∷ 13 ∷ 10 ∷ []) (idle []) (omega arith) refl refl

-- The first server: a request over one that was longer.
serve_one-OneOutcome_example :
    (bs : List ℕ) × (w' : Machine) × Delivered loopback loopback_reliable 4 512 bs (idle request) w'
    × OneOutcome loopback loopback_reliable 100 4
        (overwrite bs (replicate 512 0))
        (view w')
        (request_of (before_nul (overwrite bs (replicate 512 0))))
        (serve_one loopback 4 100 (replicate 512 0) (idle request))
serve_one-OneOutcome_example =
    serve_one-OneOutcome loopback loopback_reliable 100 4 (replicate 512 0) (idle request)
      (omega arith)

abbrev next_byte : ℕ
next_byte = b'x'

request_of-quit_iff_example :
    (request_of (before_nul (quit_line ++ (next_byte ∷ 13 ∷ 10 ∷ 0 ∷ []))) ≡ quit) ↔ (next_byte ≡ 0)
request_of-quit_iff_example = request_of-quit_iff next_byte (13 ∷ 10 ∷ 0 ∷ [])
