-- ===== src/FileClient/Receive/Saved.antt =====
-- `receive_file` on the answer of the server.
use dp.Base.{
  ℕ, ◌+◌, ◌%◌, ◌≤◌, ◌<◌, ◌≡◌, refl, sym, ap, ap₂, ◌∙◌, arith, true, false, some, List, [], ◌∷◌,
  ◌++◌, length, take, drop, take_all, drop_all,
}
use dp.Base.Words.{u32_mod, htonl_bytes, ntohl_bytes, ntohl-htonl}
use dp.Os.Calls.{Fd, FileName, Stat, Os}
use dp.Os.Io.{Result, ok, out_of_fuel}
use dp.Os.Net.{Net, consume, emit, created, shut, stored, held}
use dp.Os.Net.Laws.{
  incoming-consume, incoming-created, is_file-created, stored-emit-created, held-emit-created,
  held-consume, is_open-shut, incoming-shut, is_open-consume, consume-consume,
}
use dp.Os.Net.Relay.{relayed, incoming-relayed}
use dp.Os.Reliable.{Reliable}
use dp.Sockwrap.Wrap.Laws.{close-Reaches}
use dp.Sockwrap.Exact.Reading.{readn_or_exit-Took}
use dp.FileServer.SendFile.Sent.{header}
use dp.FileClient.Receive.{drop_last, receive_into, receive_named, receive_file}
use dp.FileClient.Receive.Loop.{receive_loop-saves, receive_loop-hangs}

-- What is left of the answer once its first byte was read.
abbrev pub answer_after_plus : Stat → List ℕ → List ℕ
answer_after_plus st bs = drop 1 (header st) ++ bs

pub drop_last-append : (name : List ℕ) (c : ℕ) → drop_last (name ++ (c ∷ [])) ≡ some name
unfolding drop_last
drop_last-append [] c = refl
drop_last-append (d ∷ []) c = refl
drop_last-append (d ∷ e ∷ name) c = rw (drop_last-append (e ∷ name) c)

-- The streams after the loop and the closing of the file.
saved_view :
    (sockfd fd : ℕ) (name old bs : List ℕ) (s s1 s2 : Net) {s3 : Net} (n : ℕ)
    → s1 ≡ created fd name old s
    → s1.incoming sockfd ≡ bs
    → s2 ≡ relayed sockfd fd n s1
    → s3 ≡ shut fd s2
    → length bs ≡ n
    → (s3 ≡ shut fd (emit fd bs (consume sockfd n (created fd name old s))))
      × (stored fd s3 ≡ bs ++ drop (length bs) old)
      × (held name s3 ≡ bs ++ drop (length bs) old)
      × (s3.incoming sockfd ≡ [])
saved_view sockfd fd name old bs s s1 s2 n e here e2 e3 whole =
    let all : take n (s1.incoming sockfd) ≡ bs = ap (take n) here ∙ take_all n bs (omega arith) in
    let moved = e2 ∙ ap₂ (emit fd) all (ap (consume sockfd n) e) in
    (
      e3 ∙ ap (shut fd) moved,
      ap (stored fd) (e3 ∙ ap (shut fd) moved) ∙ stored-emit-created fd sockfd n name old bs s,
      ap (held name) (e3 ∙ ap (shut fd) moved) ∙ held-emit-created fd sockfd n name old bs s,
      ap (λ t. t.incoming sockfd) e3
          ∙ incoming-shut fd sockfd s2
          ∙ ap (λ t. t.incoming sockfd) e2
          ∙ incoming-relayed sockfd fd n s1
          ∙ ap (drop n) here
          ∙ drop_all n bs (omega arith),
    )

module _ (os : Os) (r : Reliable os) (fuel : ℕ) (sockfd : Fd) (buflen : ℕ) where
  module _ (st : Stat) (bs : List ℕ) (w : os.World)
      (answer : (r.view w).incoming sockfd ≡ answer_after_plus st bs)
      (enough : 4 + r.patience w < fuel) where
    answer_parts :
        (take 4 (drop 4 ((r.view w).incoming sockfd)) ≡ htonl_bytes (st.st_size % u32_mod))
        × (drop 12 ((r.view w).incoming sockfd) ≡ bs)
    unfolding header htonl_bytes
    answer_parts = rw answer (refl, refl)

    -- The three parts of the header are read.
    header_read :
        (rounds : ℕ) (filename : FileName)
        → (w' : os.World) × (receive_file os fuel sockfd buflen rounds filename w
            ≡ receive_named os fuel sockfd buflen rounds
                (st.st_size % u32_mod)
                (drop_last filename)
                w')
          × (r.view w' ≡ consume sockfd 12 (r.view w))
          × (r.patience w' ≤ r.patience w)
    unfolding receive_file
    header_read rounds filename =
        let (w1, run1, m1, c1) = readn_or_exit-Took os r fuel sockfd 4 w enough in
        let (w2, run2, m2, c2) = readn_or_exit-Took os r fuel sockfd 4 w1 (omega arith) in
        let (w3, run3, m3, c3) = readn_or_exit-Took os r fuel sockfd 4 w2 (omega arith) in
        let size : take 4 ((r.view w1).incoming sockfd) ≡ htonl_bytes (st.st_size % u32_mod) =
          ap (λ t. take 4 (t.incoming sockfd)) m1
          ∙ ap (take 4) (incoming-consume sockfd 4 (r.view w))
          ∙ answer_parts.0 in
        let value = ap ntohl_bytes size ∙ ntohl-htonl (st.st_size % u32_mod) (omega arith) in
        (
          w3,
          rw run1 (
              rw run2 (
                rw run3 (
                  ap (λ n. receive_named os fuel sockfd buflen rounds n (drop_last filename) w3)
                    value))),
          m3
              ∙ ap (consume sockfd 4)
                  (m2 ∙ ap (consume sockfd 4) m1 ∙ consume-consume sockfd 4 4 8 (r.view w) refl)
              ∙ consume-consume sockfd 8 4 12 (r.view w) refl,
          omega arith,
        )

    -- The state in which the descriptor of the file is fresh.
    record Fresh (name : FileName) (fd : Fd) (w' : os.World) : Type 0 where
      unused : (r.view w).is_open fd ≡ false
      streams : r.view w' ≡ created fd name (held name (r.view w)) (consume sockfd 12 (r.view w))
      rest : (r.view w').incoming sockfd ≡ bs
      file : (r.view w').is_file fd ≡ true
      calm : r.patience w' ≤ r.patience w

    create :
        (name : FileName) (w' : os.World)
        → r.view w' ≡ consume sockfd 12 (r.view w)
        → r.patience w' ≤ r.patience w
        → (fd : Fd) × ((os.open_create name w').0 ≡ some fd)
          × Fresh name fd (os.open_create name w').1
    create name w' m calm =
        let (fd, opened, unused, moved, calm') = r.open_create_lem name w' in
        let old = ap (held name) m ∙ held-consume sockfd 12 name (r.view w) in
        let streams = moved ∙ ap₂ (created fd name) old m in
        (
          fd,
          opened,
          record {
            unused =
                sym (is_open-consume sockfd 12 fd (r.view w))
                ∙ sym (ap (λ t. t.is_open fd) m)
                ∙ unused;
            streams = streams;
            rest =
                ap (λ t. t.incoming sockfd) streams
                ∙ incoming-created fd sockfd name (held name (r.view w))
                    (consume sockfd 12 (r.view w))
                ∙ incoming-consume sockfd 12 (r.view w)
                ∙ answer_parts.1;
            file =
                ap (λ t. t.is_file fd) streams
                ∙ is_file-created fd name (held name (r.view w)) (consume sockfd 12 (r.view w));
            calm = omega arith;
          },
        )

    -- The name that is used is the one that was typed, less its last byte.
    module _ (rounds : ℕ) (name : FileName) (c : ℕ) (range : st.st_size < u32_mod) where
      started :
          (fd : Fd) × (w' : os.World) × Fresh name fd w'
          × (receive_file os fuel sockfd buflen rounds (name ++ (c ∷ [])) w
              ≡ receive_into os fuel sockfd buflen rounds st.st_size (some fd) w')
      unfolding receive_named
      started =
          let (w1, run1, m1, c1) = header_read rounds (name ++ (c ∷ [])) in
          let (fd, opened, fresh) = create name w1 m1 c1 in
          let size : st.st_size % u32_mod ≡ st.st_size = omega arith in
          (
            fd,
            (os.open_create name w1).1,
            fresh,
            run1 ∙ rw (drop_last-append name c) (rw opened (rw size)),
          )

      -- The whole run, with the state in which it ends.
      pub receive_file_run :
          length bs ≡ st.st_size
          → 0 < buflen
          → st.st_size < rounds
          → (fd : Fd) × (w' : os.World) × ((r.view w).is_open fd ≡ false)
            × (receive_file os fuel sockfd buflen rounds (name ++ (c ∷ [])) w ≡ (ok tt, w'))
            × (stored fd (r.view w') ≡ bs ++ drop (length bs) (held name (r.view w)))
            × (held name (r.view w') ≡ bs ++ drop (length bs) (held name (r.view w)))
            × ((r.view w').is_open fd ≡ false)
            × ((r.view w').incoming sockfd ≡ [])
            × (r.patience w' ≤ r.patience w)
            × (r.view w'
                ≡ shut fd (
                    emit fd bs (
                      consume sockfd st.st_size
                        (created fd name (held name (r.view w)) (consume sockfd 12 (r.view w))))))
      unfolding receive_into
      receive_file_run whole large h =
          let (fd, w1, fresh, begun) = started in
          let (w2, run, moved, calm) =
            receive_loop-saves os r fuel sockfd buflen fd st.st_size rounds 0 st.st_size w1
              (ap length fresh.rest ∙ whole) (omega arith) range large h fresh.file
              (omega (arith, fresh.calm)) in
          let (w3, closed, shut_now, calm') = close-Reaches os r fd w2 in
          let final =
            saved_view sockfd fd name (held name (r.view w)) bs _ _ _ st.st_size fresh.streams
              fresh.rest moved shut_now whole in
          (
            fd,
            w3,
            fresh.unused,
            begun ∙ rw run closed,
            final.1,
            final.2,
            ap (λ t. t.is_open fd) shut_now ∙ is_open-shut fd (r.view w2),
            final.3,
            omega (arith, fresh.calm),
            final.0,
          )

      -- On a machine that keeps the promises of `Reliable`, with fuel and rounds enough, a buffer
      -- that is not empty and a size of 32 bits: where the answer, after its first byte, holds all
      -- the bytes that it announces and ends with them, `receive_file` returns, the file is written
      -- with them and closed, and the stream is used up; of a longer file that was there the rest
      -- stays.
      pub receive_file-saves :
          length bs ≡ st.st_size
          → 0 < buflen
          → st.st_size < rounds
          → (fd : Fd) × (w' : os.World) × ((r.view w).is_open fd ≡ false)
            × (receive_file os fuel sockfd buflen rounds (name ++ (c ∷ [])) w ≡ (ok tt, w'))
            × (stored fd (r.view w') ≡ bs ++ drop (length bs) (held name (r.view w)))
            × (held name (r.view w') ≡ bs ++ drop (length bs) (held name (r.view w)))
            × ((r.view w').is_open fd ≡ false)
            × ((r.view w').incoming sockfd ≡ [])
            × (r.patience w' ≤ r.patience w)
      receive_file-saves whole large h =
          let (fd, w', unused, run, result, found, closed, read, calm, streams) =
            receive_file_run whole large h in
          (fd, w', unused, run, result, found, closed, read, calm)

      -- Under the same conditions but those on rounds and buffer, where the answer ends before that,
      -- `receive_file` does not return: it uses up its rounds, however many they are.
      pub receive_file-hangs :
          length bs < st.st_size
          → (receive_file os fuel sockfd buflen rounds (name ++ (c ∷ [])) w).0 ≡ out_of_fuel
      unfolding receive_into
      receive_file-hangs few =
          let (fd, w1, fresh, begun) = started in
          let stuck =
            receive_loop-hangs os r fuel sockfd buflen fd st.st_size rounds 0 w1
              (omega (arith, ap length fresh.rest)) range fresh.file (omega (arith, fresh.calm)) in
          ap (λ (t : Result (Unit {0}) × os.World). t.0) begun ∙ rw stuck
