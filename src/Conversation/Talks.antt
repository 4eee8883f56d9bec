-- ===== src/Conversation/Talks.antt =====
-- A dialogue about two files: a machine on which the script says whose turn it is.
use dp.Base.{ℕ, ◌≡◌, none, some, Option, List, [], ◌∷◌}
use dp.Os.Calls.{Fd, FileName, Os}
use dp.Os.Net.{arrive}
use dp.Os.Reliable.{Reliable}
use dp.Os.Loopback.{Machine, loopback, view}
use dp.Os.Loopback.Laws.{loopback_reliable}
use dp.Sockwrap.Wrap
use dp.FileClient.Session.{typed}
use dp.Conversation.Shelf.{long_file, short_file, first_name, second_name, machine, answer}
use dp.Conversation.Typed.{typed_get, typed_quit, requested, two_rounds}

-- An empty piece stands for the user's turn.
unfoldable turns_of : List (List ℕ) → Machine → Option (List Fd) × Machine
unfolding arrive
turns_of [] w = (some (0 ∷ []), w)
turns_of ([] ∷ rest) w = (some (0 ∷ []), record w { waiting = rest })
turns_of ((b ∷ bs) ∷ rest) w =
    (some (3 ∷ []), record w { net = arrive 3 (b ∷ bs) w.net; waiting = rest })

abbrev dialogue_os : Os
dialogue_os = record loopback { select = λ fds limit w. turns_of w.waiting w }

abbrev dialogue_reliable : Reliable dialogue_os
dialogue_reliable = record {
  view = view;
  patience = λ w. w.interrupts;
  read_interrupted = loopback_reliable.read_interrupted;
  read_delivers = loopback_reliable.read_delivers;
  read_end = loopback_reliable.read_end;
  write_interrupted = loopback_reliable.write_interrupted;
  write_accepts = loopback_reliable.write_accepts;
  recv_interrupted = loopback_reliable.recv_interrupted;
  recv_delivers = loopback_reliable.recv_delivers;
  recv_end = loopback_reliable.recv_end;
  send_interrupted = loopback_reliable.send_interrupted;
  send_accepts = loopback_reliable.send_accepts;
  file_write_lem = loopback_reliable.file_write_lem;
  malloc_lem = loopback_reliable.malloc_lem;
  open_create_lem = loopback_reliable.open_create_lem;
  close_lem = loopback_reliable.close_lem;
  so_error_lem = loopback_reliable.so_error_lem;
  open_read_missing = loopback_reliable.open_read_missing;
  open_read_found = loopback_reliable.open_read_found;
  fstat_lem = loopback_reliable.fstat_lem;
}

-- Two requests and a `Q` are typed, and the answers come in between.
abbrev client_start : Machine
client_start =
    record (machine (λ name. none) ([] ∷ answer long_file ∷ [] ∷ answer short_file ∷ [] ∷ [])) {
      typed = typed_get first_name ∷ typed_get second_name ∷ typed_quit ∷ [];
    }

abbrev after_request : FileName → Machine → Machine
after_request = requested dialogue_os dialogue_reliable 300 20 3 16

abbrev after_answer : Machine → Machine
after_answer = two_rounds dialogue_os dialogue_reliable 300 20 3 16

-- The script at each step.
record Steps : Type 0 where
  first_answer :
      (after_request first_name client_start).waiting
      ≡ answer long_file ∷ [] ∷ answer short_file ∷ [] ∷ []
  second_turn : (after_answer client_start).waiting ≡ [] ∷ answer short_file ∷ [] ∷ []
  second_typed : (after_answer client_start).typed ≡ typed_get second_name ∷ typed_quit ∷ []
  second_answer :
      (after_request second_name (after_answer client_start)).waiting ≡ answer short_file ∷ [] ∷ []
  last_turn : (after_answer (after_answer client_start)).waiting ≡ [] ∷ []
  last_typed : (after_answer (after_answer client_start)).typed ≡ typed_quit ∷ []
