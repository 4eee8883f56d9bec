-- ===== src/Sockwrap/Lines/Unbuffered.antt =====
-- `readline_unbuffered` against the stream, when no signal comes.
use dp.Base.{
  ℕ, suc, ◌+◌, ◌≡◌, refl, sym, ap, ◌∙◌, subst, arith, Option, none, some, List, [], ◌∷◌, ◌++◌,
  length, drop, take-append-drop,
}
use dp.Os.Calls.{Fd, Os}
use dp.Os.Io.{ok}
use dp.Os.Net.{Net, consume, update}
use dp.Os.Net.Laws.{incoming-consume, consume-consume, consume-zero}
use dp.Os.Reliable.{Reliable}
use dp.Sockwrap.Lines.{char, at_end, received_char, recv_char, only_line, readline_unbuffered}
use dp.Sockwrap.Lines.Loop.{take_line, line_count, Gives, line_loop-ReadsLine}

module _ (os : Os) (r : Reliable os) (fd : Fd) where
  stream : Unit {0} → os.World → List ℕ
  stream s w = (r.view w).incoming fd

  module _ (w0 : os.World) where
    -- The state was reached from `w0` by reading from `fd`, and no signal is to come.
    Quiet : Unit {0} → os.World → Type 0
    Quiet s w = (n : ℕ) × (r.view w ≡ consume fd n (r.view w0)) × (r.patience w ≡ 0)

    received_char-Gives :
        (w : os.World) (o : Option (List ℕ))
        → (os.recv fd 1 0 w).0 ≡ o
        → Quiet tt w
        → Gives
            (recv_char os fd)
            stream
            Quiet
            ((r.view w).incoming fd)
            (received_char os fd o (os.recv fd 1 0 w).1)
    unfolding received_char stream Quiet
    received_char-Gives w none e quiet =
        let (interrupted, same, fewer) = r.recv_interrupted fd 1 w e in
        absurd (omega (arith, quiet.2))
    received_char-Gives w (some []) e quiet =
        let (front, short, moved, calm) = r.recv_delivers fd 1 w [] e in
        let ended = r.recv_end fd 1 w e (λ z. absurd (omega (arith, z))) in
        let whole = moved ∙ consume-zero fd (r.view w) in
        subst
          (λ (t : List ℕ).
            Gives (recv_char os fd) stream Quiet t (ok (at_end, tt), (os.recv fd 1 0 w).1))
          (sym ended)
          (
            tt,
            (os.recv fd 1 0 w).1,
            refl,
            ap (λ (t : Net). t.incoming fd) whole ∙ ended,
            (quiet.0, whole ∙ quiet.1, omega (arith, quiet.2)),
          )
    received_char-Gives w (some (c ∷ d ∷ cs)) e quiet =
        let (front, short, moved, calm) = r.recv_delivers fd 1 w (c ∷ d ∷ cs) e in
        absurd (omega arith)
    received_char-Gives w (some (c ∷ [])) e quiet =
        let (front, short, moved, calm) = r.recv_delivers fd 1 w (c ∷ []) e in
        let here = (r.view w).incoming fd in
        subst
          (λ (t : List ℕ).
            Gives (recv_char os fd) stream Quiet t (ok (char c, tt), (os.recv fd 1 0 w).1))
          (ap (λ t. t ++ drop 1 here) front ∙ take-append-drop 1 here)
          (
            tt,
            (os.recv fd 1 0 w).1,
            refl,
            ap (λ (t : Net). t.incoming fd) moved ∙ incoming-consume fd 1 (r.view w),
            (
              quiet.0 + 1,
              moved
                  ∙ ap (consume fd 1) quiet.1
                  ∙ consume-consume fd quiet.0 1 (quiet.0 + 1) (r.view w0) refl,
              omega (arith, quiet.2),
            ),
          )

    recv_char-Gives :
        (s : Unit {0}) (w : os.World)
        → Quiet s w
        → Gives (recv_char os fd) stream Quiet (stream s w) (recv_char os fd s w)
    unfolding recv_char stream Quiet
    recv_char-Gives s w quiet = received_char-Gives w (os.recv fd 1 0 w).0 refl quiet

  -- The line is all that was taken off the stream.
  just_the_line :
      (n k : ℕ) (s s' : Net)
      → s' ≡ consume fd n s
      → s'.incoming fd ≡ drop k (s.incoming fd)
      → s' ≡ consume fd k s
  unfolding consume
  just_the_line n k s s' moved rest =
      moved
      ∙ ap (λ t. record s { incoming = update s.incoming fd t })
          (sym (incoming-consume fd n s) ∙ sym (ap (λ (t : Net). t.incoming fd) moved) ∙ rest)

  -- If no signal comes, `readline_unbuffered` on a buffer of `suc left` bytes takes the next line off
  -- the stream, or as much of it as fits before the terminator, and nothing else. The number that it
  -- returns is that of `readline`.
  pub readline_unbuffered-reads :
      (left : ℕ) (w : os.World)
      → r.patience w ≡ 0
      → (w' : os.World) × (readline_unbuffered os fd (suc left) w ≡ (
        ok (
            some (
              line_count 0 left ((r.view w).incoming fd),
              take_line left ((r.view w).incoming fd),
            )),
        w',
      ))
        × (r.view w' ≡ consume fd (length (take_line left ((r.view w).incoming fd))) (r.view w))
        × (r.patience w' ≡ 0)
  unfolding readline_unbuffered only_line stream Quiet
  readline_unbuffered-reads left w quiet =
      let (s', w', run, rest, since) =
        line_loop-ReadsLine (recv_char os fd) stream (Quiet w) (recv_char-Gives w) left []
          ((r.view w).incoming fd) tt w refl (0, sym (consume-zero fd (r.view w)), quiet) in
      (
        w',
        rw run refl,
        just_the_line since.0 (length (take_line left ((r.view w).incoming fd))) (r.view w)
            (r.view w') since.1 rest,
        since.2,
      )
