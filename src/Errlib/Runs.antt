-- ===== src/Errlib/Runs.antt =====
-- A message of errlib.c.
use dp.Base.{ℕ, ◌≡◌, false, true, some, List, [], ◌∷◌, replicate}
use dp.Errlib.Output.{report_by, send_text, log_err, printed, sys, exits, report_by-printed}

-- A message that is longer than the buffer.
abbrev long_message : List ℕ
long_message = replicate 5000 b'x'

report_by-printed_example :
    report_by sys false long_message (b'n' ∷ b'o' ∷ [])
    ≡ (some (send_text false log_err (printed true long_message (b'n' ∷ b'o' ∷ []))), exits 1)
report_by-printed_example = report_by-printed sys false long_message (b'n' ∷ b'o' ∷ [])
