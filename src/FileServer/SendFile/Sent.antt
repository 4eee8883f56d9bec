-- ===== src/FileServer/SendFile/Sent.antt =====
-- What `send_file` sends on a healthy machine.
use dp.Base.{
  none, ℕ, ◌+◌, ◌%◌, ◌≤◌, ◌<◌, ◌≡◌, refl, sym, ap, ap₂, ◌∙◌, arith, false, some, List, ◌++◌, length,
  take, append_assoc,
}
use dp.Base.Words.{u32_mod, htonl_bytes}
use dp.Os.Calls.{Fd, FileName, Stat, Os}
use dp.Os.Io.{Io, ok}
use dp.Os.Net.{Net, File, emit, consume, opened}
use dp.Os.Net.Laws.{emit-emit, emit-consume, incoming-opened, file_of-opened, incoming-emit}
use dp.Os.Reliable.{Reliable}
use dp.FileServer.Defs.{ok_line}
use dp.FileServer.SendFile.{int_limit, send_time, send_size, send_header, send_loop, send_file}
use dp.FileServer.SendFile.Parts.{Continues, send_part-Continues}
use dp.FileServer.SendFile.Kept.{kept}
use dp.Os.Net.Relay.{relayed}
use dp.FileServer.SendFile.Loop.{send_loop-Relays}

-- The header: the line `+OK`, the size and the time of the last modification, each as four bytes.
unfoldable pub header : Stat → List ℕ
header st = ok_line ++ (htonl_bytes (st.st_size % u32_mod) ++ htonl_bytes (st.st_mtime % u32_mod))

unfoldable pub stat_of : File → Stat
stat_of f = record { st_size = length f.content; st_mtime = f.mtime }

length-htonl_bytes : (x : ℕ) → length (htonl_bytes x) ≡ 4
unfolding htonl_bytes
length-htonl_bytes x = refl

relayed-emit :
    (fd connfd n : ℕ) (h : List ℕ) (s : Net)
    → relayed fd connfd n (emit connfd h s)
      ≡ emit connfd (h ++ take n (s.incoming fd)) (consume fd n s)
relayed-emit fd connfd n h s =
    ap (λ t. emit connfd (take n t) (consume fd n (emit connfd h s))) (incoming-emit connfd fd h s)
    ∙ ap (emit connfd (take n (s.incoming fd))) (sym (emit-consume fd n connfd h s))
    ∙ emit-emit connfd h (take n (s.incoming fd)) (consume fd n s)

module _ (os : Os) (r : Reliable os) (fuel : ℕ) (connfd : Fd) where
  -- The parts of the header go out one after the other.
  three_parts :
      (a b c : List ℕ) (s0 s1 s2 s3 : Net)
      → s1 ≡ emit connfd a s0
      → s2 ≡ emit connfd b s1
      → s3 ≡ emit connfd c s2
      → s3 ≡ emit connfd (a ++ (b ++ c)) s0
  three_parts a b c s0 s1 s2 s3 e1 e2 e3 =
      e3
      ∙ ap (emit connfd c) (e2 ∙ ap (emit connfd b) e1 ∙ emit-emit connfd a b s0)
      ∙ emit-emit connfd (a ++ b) c s0
      ∙ ap (λ t. emit connfd t s0) (append_assoc a b c)

  send_header-Continues :
      (rounds buflen : ℕ) (fd : Fd) (st : Stat) (w : os.World)
      → 13 + r.patience w < fuel
      → Continues os r fuel connfd
          (header st)
          w
          (send_header os fuel connfd rounds fd st buflen)
          (send_loop os fuel connfd fd st.st_size buflen rounds 13 0)
  unfolding send_header send_size send_time header
  send_header-Continues rounds buflen fd st w enough =
      let size : List ℕ = htonl_bytes (st.st_size % u32_mod) in
      let time : List ℕ = htonl_bytes (st.st_mtime % u32_mod) in
      let four : length size ≡ 4 = length-htonl_bytes (st.st_size % u32_mod) in
      let four' : length time ≡ 4 = length-htonl_bytes (st.st_mtime % u32_mod) in
      let total : 5 + length size + length time ≡ 13 = omega arith in
      let loop = send_loop os fuel connfd fd st.st_size buflen rounds in
      let (w1, run1, m1, c1) =
        send_part-Continues os r fuel connfd ok_line (send_size os fuel connfd rounds fd st buflen)
          w (omega arith) (omega arith) in
      let (w2, run2, m2, c2) =
        send_part-Continues os r fuel connfd size (send_time os fuel connfd rounds fd st buflen 5)
          w1 (omega arith) (omega arith) in
      let (w3, run3, m3, c3) =
        send_part-Continues os r fuel connfd time (λ c. loop (5 + length size + c) 0) w2
          (omega arith) (omega arith) in
      (
        w3,
        run1 ∙ run2 ∙ run3 ∙ ap (λ t. loop t 0 w3) total,
        three_parts ok_line size time (r.view w) (r.view w1) (r.view w2) (r.view w3) m1 m2 m3,
        omega arith,
      )

  -- A run that ends with 1, has written the header and has relayed what the loop keeps.
  abbrev Sends : Stat → ℕ → Fd → Net → ℕ → Io os.World ℕ → os.World → Type 0
  Sends st buflen fd s patience m w =
      (w' : os.World) × (m w ≡ (ok 1, w'))
      × (r.view w'
          ≡ emit connfd (header st ++ take (kept st.st_size buflen) (s.incoming fd))
              (consume fd (kept st.st_size buflen) s))
      × (r.patience w' ≤ patience)

  send_header-Sends :
      (rounds buflen : ℕ) (fd : Fd) (st : Stat) (w : os.World)
      → length ((r.view w).incoming fd) ≡ st.st_size
      → 13 < buflen
      → 13 + st.st_size < int_limit
      → st.st_size < rounds
      → buflen + r.patience w < fuel
      → Sends st buflen fd
          (r.view w)
          (r.patience w)
          (send_header os fuel connfd rounds fd st buflen)
          w
  send_header-Sends rounds buflen fd st w here big range h enough =
      let (w1, run1, m1, c1) = send_header-Continues rounds buflen fd st w (omega arith) in
      let here1 =
        ap (λ t. length (t.incoming fd)) m1
        ∙ ap length (incoming-emit connfd fd (header st) (r.view w))
        ∙ here in
      let (w2, run2, m2, c2) =
        send_loop-Relays os r fuel connfd fd st.st_size buflen rounds 13 st.st_size w1 here1 refl
          (omega arith) big range h (omega arith) in
      (
        w2,
        run1 ∙ run2,
        m2
            ∙ ap (relayed fd connfd (kept st.st_size buflen)) m1
            ∙ relayed-emit fd connfd (kept st.st_size buflen) (header st) (r.view w),
        omega arith,
      )

  abbrev sent_view : Fd → Stat → ℕ → List ℕ → Net → Net
  sent_view fd st buflen bs s =
      emit connfd (header st ++ take (kept st.st_size buflen) bs)
        (consume fd (kept st.st_size buflen) s)

  stat-opened :
      (fd : Fd) (f : File) (s : Net)
      → s.file_of fd ≡ f
      → ◌≡◌ {A = Stat}
          (record { st_size = length (s.file_of fd).content; st_mtime = (s.file_of fd).mtime })
          (stat_of f)
  unfolding stat_of
  stat-opened fd f s e =
      ap (λ (g : File). record { st_size = length g.content; st_mtime = g.mtime }) e

  -- Asked for a file that is there and is not being written, with a buffer of more than 13 bytes, a
  -- size that an `int` can count with the header, and fuel and rounds enough, `send_file` returns 1
  -- and has written to the client the header with the file's size and time, then `kept` bytes of the
  -- file, which it has read from a fresh descriptor. Nothing else has changed: the descriptor of the
  -- file is still open.
  pub send_file-Sends :
      (rounds buflen : ℕ) (name : FileName) (f : File) (w : os.World)
      → (r.view w).disk name ≡ some f
      → (r.view w).written name ≡ none
      → 13 < buflen
      → 13 + length f.content < int_limit
      → length f.content < rounds
      → buflen + r.patience w < fuel
      → (fd : Fd) × (w' : os.World) × ((r.view w).is_open fd ≡ false)
        × (send_file os fuel connfd rounds name buflen w ≡ (ok 1, w'))
        × (r.view w'
            ≡ emit connfd
                (header (stat_of f) ++ take (kept (length f.content) buflen) f.content)
                (consume fd (kept (length f.content) buflen) (opened fd f (r.view w))))
        × (r.patience w' ≤ r.patience w)
  unfolding send_file stat_of
  send_file-Sends rounds buflen name f w found unwritten big range h enough =
      let (fd, is_found, fresh, m1, c1) = r.open_read_found name w f found unwritten in
      let w1 = (os.open_read name w).1 in
      let (stat, m2, c2) = r.fstat_lem fd w1 in
      let is_f = ap (λ t. t.file_of fd) m1 ∙ file_of-opened fd f (r.view w) in
      let known = stat ∙ ap some (stat-opened fd f (r.view w1) is_f) in
      let w2 = (os.fstat fd w1).1 in
      let there = ap (λ t. t.incoming fd) (m2 ∙ m1) ∙ incoming-opened fd f (r.view w) in
      let (w3, run, m3, c3) =
        send_header-Sends rounds buflen fd (stat_of f) w2 (ap length there) big range h
          (omega arith) in
      (
        fd,
        w3,
        fresh,
        rw (is_found, known) run,
        m3 ∙ ap₂ (sent_view fd (stat_of f) buflen) there (m2 ∙ m1),
        omega arith,
      )
