-- ===== src/UdpClient/Waits.antt =====
-- The answers that the client shows, and when it ends.
use dp.Base.{
  ℕ, zero, suc, ◌+◌, ◌≤◌, ◌<◌, ◌≡◌, refl, ◌∙◌, arith, some, List, [], ◌∷◌, length, take, lt→ltb,
  sym, ap, ◌++◌, append-nil, append_assoc, le→not_ltb,
}
use dp.Base.Scan.{string_in}
use dp.Os.Calls.{Fd, Os}
use dp.Os.Io.{Io, ok}
use dp.Sockwrap.Wrap
use dp.Sockwrap.Datagrams
use dp.Square.Udp.{Datagram, Udp, UdpLaws}
use dp.UdpClient.{text_len, tries, try_seconds, show_text, show_datagram, after_select, wait_loop}

-- What the manual pages say of `select` with one descriptor for datagrams, and with none. Datagrams
-- may come during every call; `waits` counts the calls of `select`.
pub record Waiting (os : Os) (udp : Udp os.World) (s : Fd) : Type 0 where
  pub net : UdpLaws udp s
  pub waits : os.World → ℕ
  pub select_counted :
      (set : List Fd) (limit : ℕ) (w : os.World)
      → waits (os.select set (some limit) w).1 ≡ waits w + 1
  pub recvfrom_uncounted : (room : ℕ) (w : os.World) → waits (udp.recvfrom s room w).1 ≡ waits w
  pub select_none : (limit : ℕ) (w : os.World) → (os.select [] (some limit) w).0 ≡ some []
  -- what comes during the call waits behind what waited
  pub select_takes_none :
      (set : List Fd) (limit : ℕ) (w : os.World)
      → (come : List Datagram) × (net.waiting (os.select set (some limit) w).1
          ≡ net.waiting w ++ come)

-- The texts of the datagrams that fit the buffer, in order.
pub data Shown : List Datagram → List (List ℕ) → Type 0 where
  no_more : Shown [] []
  one_more :
      {d : Datagram} {ds : List Datagram} {text : List ℕ} {texts : List (List ℕ)}
      → string_in text_len (take text_len d.bytes) ≡ some text
      → Shown ds texts
      → Shown (d ∷ ds) (text ∷ texts)

module _ (os : Os) (udp : Udp os.World) (s : Fd) (laws : Waiting os udp s) where
  abbrev waited : os.World → os.World
  waited w = (os.select (s ∷ []) (some try_seconds) w).1

  abbrev received : os.World → os.World
  received w = (udp.recvfrom s text_len (waited w)).1

  -- The datagrams `ds` come, each before the wait for it is over, and then none comes in time.
  abbrev pub Comes : List Datagram → os.World → Type 0
  Comes [] w = (os.select (s ∷ []) (some try_seconds) w).0 ≡ some []
  Comes (d ∷ ds) w =
      ((os.select (s ∷ []) (some try_seconds) w).0 ≡ some (s ∷ []))
      × ((rest : List Datagram) × (laws.net.waiting (waited w) ≡ d ∷ rest))
      × Comes ds (received w)

  -- The state in which the first wait has timed out, after that many datagrams.
  abbrev pub timed_out : List Datagram → os.World → os.World
  timed_out [] w = waited w
  timed_out (d ∷ ds) w = timed_out ds (received w)

module _ (os : Os) (udp : Udp os.World) (s : Fd) (laws : Waiting os udp s) (fuel : ℕ) where
  abbrev Loop : ℕ → ℕ → List Fd → Io os.World (List (List ℕ))
  Loop = wait_loop os udp (suc fuel) s

  -- A round whose `select` comes back with a set.
  select_round :
      (rounds i : ℕ) (set ready : List Fd) (w : os.World)
      → i < tries
      → (os.select set (some try_seconds) w).0 ≡ some ready
      → Loop (suc rounds) i set w
        ≡ after_select os udp
            (suc fuel)
            s
            (Loop rounds)
            i
            ready
            (os.select set (some try_seconds) w).1
  unfolding wait_loop Wrap.select Wrap.retry_select
  select_round rounds i set ready w more got = rw (lt→ltb i tries more, got) refl

  last_round :
      (rounds i : ℕ) (set : List Fd) (w : os.World)
      → tries ≤ i
      → Loop (suc rounds) i set w ≡ (ok [], w)
  unfolding wait_loop
  last_round rounds i set w done = rw (le→not_ltb i tries done) refl

  timeout_round :
      (rounds i : ℕ) (set : List Fd) (w : os.World)
      → i < tries
      → (os.select set (some try_seconds) w).0 ≡ some []
      → Loop (suc rounds) i set w ≡ Loop rounds (i + 1) [] (os.select set (some try_seconds) w).1
  unfolding after_select
  timeout_round rounds i set w more got = select_round rounds i set [] w more got

  -- With the empty set nothing is waited for.
  empty_set :
      (k rounds i : ℕ) (w : os.World)
      → k + i ≡ tries
      → k < rounds
      → (w' : os.World) × (late : List Datagram) × (Loop rounds i [] w ≡ (ok [], w'))
        × (laws.net.waiting w' ≡ laws.net.waiting w ++ late)
        × (laws.waits w' ≡ laws.waits w + k)
  empty_set k zero i w e enough = absurd (omega (arith, enough))
  empty_set zero (suc rounds) i w e enough = (
    w,
    [],
    last_round rounds i [] w (omega arith),
    sym (append-nil (laws.net.waiting w)),
    omega arith,
  )
  empty_set (suc k) (suc rounds) i w e enough =
      let (come, now) = laws.select_takes_none [] try_seconds w in
      let (w', late, run, then, count) =
        empty_set k rounds (i + 1) (os.select [] (some try_seconds) w).1 (omega arith)
          (omega arith) in
      (
        w',
        come ++ late,
        timeout_round rounds i [] w (omega arith) (laws.select_none try_seconds w) ∙ run,
        then ∙ ap (λ t. t ++ late) now ∙ append_assoc (laws.net.waiting w) come late,
        omega (arith, count, laws.select_counted [] try_seconds w),
      )

  -- Once a wait has timed out, whatever set it was for, the client shows nothing more, waits exactly
  -- as often as tries are left, `k` times, and then ends; of the datagrams that waited and of those
  -- that come during all these waits, in any number, it takes none.
  pub wait_loop-deaf :
      (k rounds i : ℕ) (set : List Fd) (w : os.World)
      → k + (i + 1) ≡ tries
      → k < rounds
      → (os.select set (some try_seconds) w).0 ≡ some []
      → (w' : os.World) × (late : List Datagram) × (Loop (suc rounds) i set w ≡ (ok [], w'))
        × (laws.net.waiting w' ≡ laws.net.waiting w ++ late)
        × (laws.waits w' ≡ laws.waits w + (k + 1))
  wait_loop-deaf k rounds i set w e enough timed_out =
      let (come, now) = laws.select_takes_none set try_seconds w in
      let (w', late, run, then, count) =
        empty_set k rounds (i + 1) (os.select set (some try_seconds) w).1 e enough in
      (
        w',
        come ++ late,
        timeout_round rounds i set w (omega (arith, e)) timed_out ∙ run,
        then ∙ ap (λ t. t ++ late) now ∙ append_assoc (laws.net.waiting w) come late,
        omega (arith, count, laws.select_counted set try_seconds w),
      )

  show_round :
      (again : ℕ → List Fd → Io os.World (List (List ℕ))) (d : Datagram) (text : List ℕ)
      (w : os.World) (texts : List (List ℕ)) (w' : os.World)
      → (udp.recvfrom s text_len w).0 ≡ some d
      → string_in text_len d.bytes ≡ some text
      → again 0 (s ∷ []) (udp.recvfrom s text_len w).1 ≡ (ok texts, w')
      → after_select os udp (suc fuel) s again 0 (s ∷ []) w ≡ (ok (text ∷ texts), w')
  unfolding after_select show_datagram show_text Datagrams.recvfrom Wrap.check_some
  show_round again d text w texts w' got e run = rw (got, e, run) refl

  -- If the datagrams `ds` come one after another, each of them before the wait for it is over, and
  -- then none comes in time, with rounds enough: the client shows the texts of all of them, in order,
  -- if each has a terminator within 32 bytes or is shorter than that; it waits once for each of them
  -- and five times more, and then ends; and whatever comes in the last four of these waits it leaves.
  pub wait_loop-shows :
      (ds : List Datagram) (texts : List (List ℕ)) (rounds : ℕ) (w : os.World)
      → Comes os udp s laws ds w
      → Shown ds texts
      → length ds + tries < rounds
      → (w' : os.World) × (late : List Datagram) × (Loop rounds 0 (s ∷ []) w ≡ (ok texts, w'))
        × (laws.net.waiting w' ≡ laws.net.waiting (timed_out os udp s laws ds w) ++ late)
        × (laws.waits w' ≡ laws.waits w + (length ds + tries))
  wait_loop-shows [] texts zero w e shown enough = absurd (omega (arith, enough))
  wait_loop-shows [] [] (suc rounds) w e no_more enough =
      let w1 = (os.select (s ∷ []) (some try_seconds) w).1 in
      let (w', late, run, same, count) = empty_set 4 rounds 1 w1 refl (omega (arith, enough)) in
      (
        w',
        late,
        timeout_round rounds 0 (s ∷ []) w (omega arith) e ∙ run,
        same,
        omega (arith, count, laws.select_counted (s ∷ []) try_seconds w),
      )
  wait_loop-shows [] (text ∷ texts) (suc rounds) w e shown enough = elim shown [ ]
  wait_loop-shows (d ∷ ds) [] (suc rounds) w e shown enough = elim shown [ ]
  wait_loop-shows (d ∷ ds) texts zero w e shown enough = absurd (omega (arith, enough))
  wait_loop-shows (d ∷ ds) (text ∷ texts) (suc rounds) w (got, (behind, there), comes)
        (one_more fits shown) enough =
      let w1 = (os.select (s ∷ []) (some try_seconds) w).1 in
      let (taken, rest, kept) = laws.net.recvfrom_next text_len w1 d behind there in
      let w2 = (udp.recvfrom s text_len w1).1 in
      let (w', late, run, done, count) =
        wait_loop-shows ds texts rounds w2 comes shown (omega (arith, enough)) in
      (
        w',
        late,
        select_round rounds 0 (s ∷ []) (s ∷ []) w (omega arith) got
            ∙ show_round (Loop rounds) (record { bytes = take text_len d.bytes; peer = d.peer })
                text w1 texts w' taken fits run,
        done,
        omega (
          arith,
          count,
          laws.recvfrom_uncounted text_len w1,
          laws.select_counted (s ∷ []) try_seconds w,
        ),
      )
