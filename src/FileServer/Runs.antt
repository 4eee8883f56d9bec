-- ===== src/FileServer/Runs.antt =====
-- Runs of the server on the machine of `Loopback`, and the theorems at concrete inputs.
use dp.Base.{◌∷◌, [], ℕ, ◌≤◌, ◌≡◌, refl, arith, false, List, [], ◌++◌, length, take}
use dp.Os.Calls.{Fd}
use dp.Os.Io.{ok}
use dp.Os.Net.{emit, consume, opened}
use dp.Os.Loopback.{Machine, loopback, view}
use dp.Os.Loopback.Laws.{loopback_reliable}
use dp.Sockwrap.Wrap.Laws.{Delivered}
use dp.Base.Scan.{string_in, is_space}
use dp.FileServer.Service.{get, parse_request, service_loop}
use dp.FileServer.Service.Text.{get_then, parse_request-get_then}
use dp.FileServer.Service.Rounds.{Outcome, service_loop-Outcome}
use dp.FileServer.SendFile.{send_file}
use dp.FileServer.SendFile.Kept.{kept}
use dp.FileServer.SendFile.Sent.{header, stat_of, send_file-Sends}
use dp.FileServer.Bench.{notes, notes_name, idle, request, idle-Serves}

send_file-Sends_example :
    (fd : Fd) × (w' : Machine) × ((view (idle [])).is_open fd ≡ false)
    × (send_file loopback 100 4 50 notes_name 16 (idle []) ≡ (ok 1, w'))
    × (view w'
        ≡ emit 4
            (header (stat_of notes) ++ take (kept 20 16) (notes.content))
            (consume fd (kept 20 16) (opened fd notes (view (idle [])))))
    × (w'.interrupts ≤ 3)
send_file-Sends_example =
    send_file-Sends loopback loopback_reliable 100 4 50 16 notes_name notes (idle []) refl refl
      (omega arith) (omega arith) (omega arith) (omega arith)

service_loop-Outcome_example :
    (bs : List ℕ) × (w' : Machine) × Delivered loopback loopback_reliable 4 50 bs (idle request) w'
    × Outcome loopback loopback_reliable 100 4 50 30
        (service_loop loopback 100 4 50 30 2)
        (length bs)
        (view w')
        (string_in 50 bs)
        (service_loop loopback 100 4 50 30 3 (idle request))
service_loop-Outcome_example =
    service_loop-Outcome loopback loopback_reliable 100 4 50 30 2 (idle request) idle-Serves

-- Two requests that arrive together.
parse_request-get_then_example :
    parse_request (get_then notes_name (get_then (b'x' ∷ []) [])) ≡ get notes_name
unfolding is_space
parse_request-get_then_example =
    parse_request-get_then b'n' (b'.' ∷ b't' ∷ b'x' ∷ b't' ∷ []) (get_then (b'x' ∷ []) [])
      (refl, (refl, (refl, (refl, (refl, tt))))) (omega arith)
