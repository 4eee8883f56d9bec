-- ===== src/Sockwrap/Lines/Buffered.antt =====
-- `readline` against the bytes that `my_read` holds back and the stream behind them.
use dp.Base.{
  ℕ, zero, suc, ◌+◌, ◌≡◌, ◌≤◌, ◌<◌, refl, sym, ap, ◌∙◌, subst, arith, Option, none, some, List, [],
  ◌∷◌, ◌++◌, length, drop, take-append-drop,
}
use dp.Os.Calls.{Fd, Os}
use dp.Os.Io.{ok}
use dp.Os.Net.{Net, consume}
use dp.Os.Net.Laws.{incoming-consume, consume-consume, consume-zero}
use dp.Os.Reliable.{Reliable}
use dp.Sockwrap.Lines.{max_line, char, at_end, fill_buffer, my_read_empty, my_read, readline}
use dp.Sockwrap.Lines.Loop.{take_line, line_count, Gives, line_loop-ReadsLine}

module _ (os : Os) (r : Reliable os) (fuel : ℕ) (fd : Fd) where
  abbrev pub pending : List ℕ → os.World → List ℕ
  pending buffer w = buffer ++ (r.view w).incoming fd

  module _ (w0 : os.World) where
    -- The state was reached from `w0` by reading from `fd`.
    abbrev pub Since : List ℕ → os.World → Type 0
    Since buffer w =
        (n : ℕ) × (r.view w ≡ consume fd n (r.view w0)) × (r.patience w ≤ r.patience w0)

    abbrev IhFill : ℕ → Type 0
    IhFill rounds =
        (w : os.World)
        → r.patience w < rounds
        → Since [] w
        → Gives (my_read os fuel fd) pending Since ((r.view w).incoming fd)
            (my_read_empty os fuel fd rounds w)

    fill_buffer-Gives :
        (rounds : ℕ)
        → IhFill rounds
        → (w : os.World) (o : Option (List ℕ)) → (os.read fd max_line w).0 ≡ o
        → r.patience w < suc rounds
        → Since [] w
        → Gives
            (my_read os fuel fd)
            pending
            Since
            ((r.view w).incoming fd)
            (fill_buffer os fuel fd (my_read_empty os fuel fd rounds) o (os.read fd max_line w).1)
    unfolding fill_buffer
    fill_buffer-Gives rounds ih w none e h since =
        let (interrupted, same, fewer) = r.read_interrupted fd max_line w e in
        let w1 = (os.read fd max_line w).1 in
        rw interrupted (
          subst
            (λ (t : Net).
              Gives (my_read os fuel fd) pending Since (t.incoming fd)
                (my_read_empty os fuel fd rounds w1))
            same (ih w1 (omega arith) (since.0, same ∙ since.1, omega (arith, since.2))))
    fill_buffer-Gives rounds ih w (some []) e h since =
        let (front, short, moved, calm) = r.read_delivers fd max_line w [] e in
        let ended = r.read_end fd max_line w e (λ z. absurd (omega (arith, z))) in
        let whole = moved ∙ consume-zero fd (r.view w) in
        subst
          (λ (t : List ℕ).
            Gives (my_read os fuel fd) pending Since t (ok (at_end, []), (os.read fd max_line w).1))
          (sym ended)
          (
            [],
            (os.read fd max_line w).1,
            refl,
            ap (λ (t : Net). t.incoming fd) whole ∙ ended,
            (since.0, whole ∙ since.1, omega (arith, since.2)),
          )
    fill_buffer-Gives rounds ih w (some (c ∷ cs)) e h since =
        let (front, short, moved, calm) = r.read_delivers fd max_line w (c ∷ cs) e in
        let k = length (c ∷ cs) in
        let stream = (r.view w).incoming fd in
        let rest : (r.view (os.read fd max_line w).1).incoming fd ≡ drop k stream =
          ap (λ (t : Net). t.incoming fd) moved ∙ incoming-consume fd k (r.view w) in
        subst
          (λ (t : List ℕ).
            Gives (my_read os fuel fd) pending Since t (ok (char c, cs), (os.read fd max_line w).1))
          (ap (λ t. t ++ drop k stream) front ∙ take-append-drop k stream)
          (
            cs,
            (os.read fd max_line w).1,
            refl,
            ap (λ t. cs ++ t) rest,
            (
              since.0 + k,
              moved
                  ∙ ap (consume fd k) since.1
                  ∙ consume-consume fd since.0 k (since.0 + k) (r.view w0) refl,
              omega (arith, since.2),
            ),
          )

    my_read_empty-Gives : (rounds : ℕ) → IhFill rounds
    unfolding my_read_empty
    my_read_empty-Gives zero w h since = absurd (omega arith)
    my_read_empty-Gives (suc rounds) w h since =
        fill_buffer-Gives rounds (my_read_empty-Gives rounds) w (os.read fd max_line w).0 refl h
          since

    my_read-Gives :
        r.patience w0 < fuel
        → (buffer : List ℕ) (w : os.World) → Since buffer w
        → Gives (my_read os fuel fd) pending Since (pending buffer w) (my_read os fuel fd buffer w)
    unfolding my_read
    my_read-Gives enough [] w since = my_read_empty-Gives fuel w (omega (arith, since.2)) since
    my_read-Gives enough (c ∷ cs) w since = (cs, w, refl, refl, since)

  -- `readline` on a buffer of `suc left` bytes: the next line, or as much of it as fits before the
  -- terminator, of the bytes that earlier calls left in the static buffer and of the stream behind
  -- them, however the system cuts the stream and whichever calls are interrupted. The number that it
  -- returns is that of the bytes of a whole line, 0 if there is room and nothing is left to read, and
  -- one more than the number of bytes for a line that was cut or has no newline. What it has not
  -- given is still to come.
  pub readline-reads :
      (left : ℕ) (buffer : List ℕ) (w : os.World)
      → r.patience w < fuel
      → (buffer' : List ℕ) × (w' : os.World) × (readline os fuel fd (suc left) buffer w ≡ (
        ok (
          some (line_count 0 left (pending buffer w), take_line left (pending buffer w)),
          buffer',
        ),
        w',
      ))
        × (pending buffer' w'
            ≡ drop (length (take_line left (pending buffer w))) (pending buffer w))
        × ((n : ℕ) × (r.view w' ≡ consume fd n (r.view w)))
  unfolding readline
  readline-reads left buffer w enough =
      let (buffer', w', run, rest, since) =
        line_loop-ReadsLine (my_read os fuel fd) pending (Since w) (my_read-Gives w enough) left []
          (pending buffer w) buffer w refl (0, sym (consume-zero fd (r.view w)), omega arith) in
      (buffer', w', run, rest, (since.0, since.1))
