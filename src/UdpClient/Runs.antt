-- ===== src/UdpClient/Runs.antt =====
-- The client's waiting on a machine to which datagrams come while it waits.
use dp.Base.{
  ℕ, ◌+◌, ◌≡◌, refl, sym, arith, true, none, some, List, [], ◌∷◌, ◌++◌, length, append-nil,
}
use dp.Base.Scan.{string_in, before_nul}
use dp.Os.Calls.{Fd, Os}
use dp.Os.Io.{ok}
use dp.Square.Udp.{Datagram, Udp, UdpLaws}
use dp.Square.Post.{Post, receive_from, receive_next, mail, letter}
use dp.UdpClient.{wait_loop}
use dp.UdpClient.Waits.{Waiting, no_more, one_more, wait_loop-deaf, wait_loop-shows}

-- The calls of `select` so far, and what comes during each of the next ones.
record Office : Type 0 where
  pub post : Post
  pub count : ℕ
  pub coming : List (List Datagram)

abbrev come_in : List (List Datagram) → Office → Office
come_in [] w = record w { count = w.count + 1 }
come_in (ds ∷ later) w = record {
  post = record w.post { waiting = w.post.waiting ++ ds };
  count = w.count + 1;
  coming = later;
}

abbrev arrived : Office → Office
arrived w = come_in w.coming w

-- Descriptor 3 is ready if a datagram waits.
abbrev ready_if : List Datagram → List Fd → List Fd
ready_if [] fds = []
ready_if (d ∷ ds) fds = fds

-- Only `select` and `close` are used.
abbrev postal : Os
postal = record {
  World = Office;
  errno = λ w. 0;
  read = λ fd n w. (none, w);
  write = λ fd bs w. (none, w);
  recv = λ fd n flags w. (none, w);
  send = λ fd bs flags w. (none, w);
  close = λ fd w. (true, w);
  shutdown = λ fd how w. (true, w);
  accept = λ fd w. (none, w);
  select = λ fds limit w. (some (ready_if (arrived w).post.waiting fds), arrived w);
  so_error = λ fd w. (some 0, w);
  so_rcvbuf = λ fd w. (some 131072, w);
  open_read = λ name w. (none, w);
  open_create = λ name w. (none, w);
  fstat = λ fd w. (none, w);
  fgets = λ limit w. (none, w);
  malloc = λ n w. (true, w);
}

abbrev letters : Udp Office
letters = record {
  recvfrom = λ s room w.
      let (got, after) = receive_from room w.post.waiting w.post in
      (got, record w { post = after });
  sendto = λ s d w.
      (some (length d.bytes), record w { post = record w.post { gone = w.post.gone ++ (d ∷ []) } });
}

abbrev letters_laws : UdpLaws letters 3
letters_laws = record {
  waiting = λ w. w.post.waiting;
  gone = λ w. w.post.gone;
  recvfrom_next = λ room w d rest e. receive_next room w.post.waiting w.post d rest e;
  sendto_whole = λ d w. (refl, refl, refl);
}

ready_none : (ds : List Datagram) → some (ready_if ds []) ≡ some []
ready_none [] = refl
ready_none (d ∷ ds) = refl

counted : (ds : List (List Datagram)) (w : Office) → (come_in ds w).count ≡ w.count + 1
counted [] w = refl
counted (d ∷ ds) w = refl

come_behind :
    (ds : List (List Datagram)) (w : Office)
    → (come : List Datagram) × ((come_in ds w).post.waiting ≡ w.post.waiting ++ come)
come_behind [] w = ([], sym (append-nil w.post.waiting))
come_behind (d ∷ ds) w = (d, refl)

abbrev postal_laws : Waiting postal letters 3
postal_laws = record {
  net = letters_laws;
  waits = λ w. w.count;
  select_counted = λ set limit w. counted w.coming w;
  recvfrom_uncounted = λ room w. refl;
  select_none = λ limit w. ready_none (arrived w).post.waiting;
  select_takes_none = λ set limit w. come_behind w.coming w;
}

abbrev office : List Datagram → List (List Datagram) → Office
office ds coming = record { post = mail ds; count = 0; coming = coming }

abbrev hi : Datagram
hi = letter (b'h' ∷ b'i' ∷ 0 ∷ [])

abbrev okay : Datagram
okay = letter (b'o' ∷ b'k' ∷ [])

-- One datagram waits, one comes during the second wait, and one too late.
abbrev answers : Office
answers = office (hi ∷ []) ([] ∷ (okay ∷ []) ∷ [] ∷ (hi ∷ []) ∷ [])

wait_loop-shows_example :
    (w' : Office) × (late : List Datagram) × (wait_loop postal letters 2 3 10 0 (3 ∷ []) answers
      ≡ (ok ((b'h' ∷ b'i' ∷ []) ∷ (b'o' ∷ b'k' ∷ []) ∷ []), w'))
    × (w'.post.waiting ≡ [] ++ late)
    × (w'.count ≡ 7)
unfolding string_in before_nul receive_from
wait_loop-shows_example =
    wait_loop-shows postal letters 3 postal_laws 1 (hi ∷ okay ∷ [])
      ((b'h' ∷ b'i' ∷ []) ∷ (b'o' ∷ b'k' ∷ []) ∷ []) 10 answers
      (refl, ([], refl), (refl, ([], refl), refl)) (one_more refl (one_more refl no_more))
      (omega arith)

-- The answer comes in the second try.
wait_loop-deaf_example :
    (w' : Office) × (late : List Datagram) × (wait_loop postal letters 2 3 6 0
        (3 ∷ [])
        (office [] ([] ∷ (hi ∷ []) ∷ []))
      ≡ (ok [], w'))
    × (w'.post.waiting ≡ [] ++ late)
    × (w'.count ≡ 5)
wait_loop-deaf_example =
    wait_loop-deaf postal letters 3 postal_laws 1 4 5 0 (3 ∷ []) (office [] ([] ∷ (hi ∷ []) ∷ []))
      refl (omega arith) refl
