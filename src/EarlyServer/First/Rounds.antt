-- ===== src/EarlyServer/First/Rounds.antt =====
-- One connection of lab2/es3/server.c on a healthy machine.
use dp.Base.{
  ℕ, ◌≤◌, ◌<◌, ◌≡◌, ◌≢◌, ◌↔◌, ◌⊎◌, inl, inr, subst, sym, refl, ap, ◌∙◌, arith, none, some, List,
  ◌∷◌, ◌++◌, take,
}
use dp.Base.Scan.{before_nul, Scanned, scan_two_words}
use native.Mathlib.Decide.{ℕ_discrete}
use dp.Os.Calls.{Fd, Os}
use dp.Os.Io.{Result, ok, undefined}
use dp.Os.Net.{Net, emit, shut, same_name}
use dp.Os.Reliable.{Reliable}
use dp.Sockwrap.Wrap.Laws.{Delivered, read-Delivers, close-Reaches}
use dp.FileServer.Defs.{quit_line, err_message, error_msg}
use dp.FileServer.Service.{Request, quit, get, wrong_format, overrun}
use dp.FileServer.Service.Rounds.{write_some}
use dp.EarlyServer.Requests.{overwrite}
use dp.EarlyServer.First.{
  first_buflen, request_of_scan, request_of, send_nothing, answer_one, received_one, serve_one,
}

request_of_scan-ne-quit : (scanned : Scanned) → request_of_scan scanned ≢ quit
unfolding request_of_scan
request_of_scan-ne-quit scanned = ground arith

overrun-ne-quit : overrun ≢ quit
overrun-ne-quit = ground arith

-- A byte behind the line: it is read on to a terminator, or past the end of the buffer.
before_nul-quit_line :
    (c : ℕ) (rest : List ℕ)
    → c ≢ 0
    → (before_nul (quit_line ++ (c ∷ rest)) ≡ none)
      ⊎ ((s : List ℕ) × (before_nul (quit_line ++ (c ∷ rest)) ≡ some (quit_line ++ (c ∷ s))))
unfolding before_nul
before_nul-quit_line c rest nz = ground (arith, nz)

longer-ne-quit : (c : ℕ) (s : List ℕ) → request_of (some (quit_line ++ (c ∷ s))) ≢ quit
unfolding request_of same_name
longer-ne-quit c s = request_of_scan-ne-quit (scan_two_words (quit_line ++ (c ∷ s)))

not_quit :
    (c : ℕ) (rest : List ℕ) → c ≢ 0 → request_of (before_nul (quit_line ++ (c ∷ rest))) ≢ quit
unfolding request_of
not_quit c rest nz e = elim (before_nul-quit_line c rest nz) [
  | inl missing ↦ overrun-ne-quit (sym (ap request_of missing) ∙ e)
  | inr (s, longer) ↦ longer-ne-quit c s (sym (ap request_of longer) ∙ e)
]

is_quit : (rest : List ℕ) → request_of (before_nul (quit_line ++ (0 ∷ rest))) ≡ quit
unfolding request_of before_nul same_name
is_quit rest = refl

-- `QUIT` closes the connection only if the byte behind it in the buffer is NUL: behind an earlier,
-- longer request it is taken for something else, or the buffer is left without a terminator.
pub request_of-quit_iff :
    (c : ℕ) (rest : List ℕ) → (request_of (before_nul (quit_line ++ (c ∷ rest))) ≡ quit) ↔ (c ≡ 0)
request_of-quit_iff c rest = (
  λ e. elim (ℕ_discrete c 0) [ yes zero_byte ↦ zero_byte | no nz ↦ absurd (not_quit c rest nz e) ],
  λ e. subst (λ t. request_of (before_nul (quit_line ++ (t ∷ rest))) ≡ quit) (sym e) (is_quit rest),
)

module _ (os : Os) (r : Reliable os) (fuel : ℕ) (connfd : Fd) where
  abbrev pub Run : Type 0
  Run = Result (List ℕ) × os.World

  -- The buffer is left as `buf`, and the streams as `s`.
  abbrev pub Leaves : List ℕ → Net → Run → Type 0
  Leaves buf s run = (w' : os.World) × (run ≡ (ok buf, w')) × (r.view w' ≡ s)

  abbrev pub OneOutcome : List ℕ → Net → Request → Run → Type 0
  OneOutcome buf s quit run = Leaves buf (shut connfd s) run
  OneOutcome buf s (get filename) run = Leaves buf s run
  OneOutcome buf s wrong_format run =
      (k : ℕ) × (k ≤ 7) × Leaves buf (shut connfd (emit connfd (take k err_message) s)) run
  OneOutcome buf s overrun run = run.0 ≡ undefined

  answer-OneOutcome :
      (buf bs : List ℕ) (q : Request) (w : os.World)
      → request_of (before_nul (overwrite bs buf)) ≡ q
      → OneOutcome (overwrite bs buf) (r.view w) q (received_one os connfd buf bs w)
  unfolding received_one answer_one send_nothing
  answer-OneOutcome buf bs quit w e =
      let (w', run, moved, calm) = close-Reaches os r connfd w in (w', rw (e, run) refl, moved)
  answer-OneOutcome buf bs (get filename) w e = (w, rw e refl, refl)
  answer-OneOutcome buf bs wrong_format w e =
      let (k, short, moved) = write_some os r fuel connfd first_buflen 0 err_message w in
      let (w', run, moved', calm) = close-Reaches os r connfd (os.write connfd err_message w).1 in
      (k, short, (w', unfold error_msg in rw (e, run) refl, moved' ∙ ap (shut connfd) moved))
  answer-OneOutcome buf bs overrun w e = rw e refl

  -- On a machine that keeps the promises of `Reliable`, with fuel enough, one connection is one read,
  -- of at most 512 bytes, over the front of what the connections before left in the buffer. QUIT
  -- closes the connection; to a request for a file nothing is sent, and the connection is left open;
  -- anything else is answered by a front part of the error message, and the connection is closed; a
  -- word that is too long for its array, and a buffer without a terminator, are undefined.
  pub serve_one-OneOutcome :
      (buf : List ℕ) (w : os.World)
      → r.patience w < fuel
      → (bs : List ℕ) × (w' : os.World) × Delivered os r connfd first_buflen bs w w'
        × OneOutcome
            (overwrite bs buf)
            (r.view w')
            (request_of (before_nul (overwrite bs buf)))
            (serve_one os connfd fuel buf w)
  unfolding serve_one
  serve_one-OneOutcome buf w h =
      let (bs, w', run, d) = read-Delivers os r fuel connfd first_buflen w h in
      (
        bs,
        w',
        d,
        rw run (answer-OneOutcome buf bs (request_of (before_nul (overwrite bs buf))) w' refl),
      )
