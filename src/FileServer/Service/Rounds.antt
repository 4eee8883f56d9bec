-- ===== src/FileServer/Service/Rounds.antt =====
-- One round of `service` on a healthy machine, for every request that a client can make.
use dp.Base.{
  ℕ, suc, ◌+◌, ◌≤◌, ◌<◌, ◌≡◌, refl, sym, ap, ◌∙◌, arith, false, Option, none, some, List, [], ◌∷◌,
  ◌++◌, length, take, ltb, if◌then◌else◌, inl, inr, Option-cases,
}
use dp.Base.Scan.{string_in}
use dp.Os.Calls.{Fd, FileName, Os}
use dp.Os.Io.{Io, Result, ok, undefined}
use dp.Os.Net.{Net, File, emit, consume, opened, shut}
use dp.Os.Net.Laws.{emit-nil, disk-consume, written-consume}
use dp.Os.Reliable.{Reliable, Prompt}
use dp.Sockwrap.Wrap
use dp.Sockwrap.Wrap.Laws.{
  Delivered, Delivered-start, read-Delivers, close-Reaches, getsockopt_error-Reaches,
}
use dp.FileServer.Defs.{err_message, timeout_seconds, error_msg}
use dp.FileServer.SendFile.{int_limit, send_file}
use dp.FileServer.SendFile.Kept.{kept}
use dp.FileServer.SendFile.Sent.{header, stat_of, send_file-Sends}
use dp.FileServer.Service.{
  Request, quit, get, wrong_format, overrun, parse_request, close_and_leave, next_request,
  after_file, answer, answer_string, received, check_error, after_select, service_loop,
}

module _ (os : Os) (r : Reliable os) (fuel : ℕ) (connfd : Fd) (buflen rounds : ℕ) where
  -- The client speaks in time, the files fit an `int`, the fuel covers them, and none of them is being
  -- written.
  pub record Serves (w : os.World) : Type 0 where
    pub prompt : Prompt os r connfd
    pub unwritten : (name : FileName) → (r.view w).written name ≡ none
    pub in_range :
        (name : FileName) (f : File)
        → (r.view w).disk name ≡ some f
        → 13 + length f.content < int_limit
    pub enough_rounds :
        (name : FileName) (f : File) → (r.view w).disk name ≡ some f → length f.content < rounds
    pub large : 13 < buflen
    pub enough : buflen + r.patience w < fuel

  abbrev pub Run : Type 0
  Run = Result (Unit {0}) × os.World

  -- The process has gone on as `next`, in a state where the streams are `s`.
  abbrev pub Now : Io os.World (Unit {0}) → Net → Run → Type 0
  Now next s run = (w' : os.World) × (run ≡ next w') × (r.view w' ≡ s)

  abbrev pub leave : Io os.World (Unit {0})
  leave w = (ok tt, w)

  -- The bytes of the answer to a request for a file.
  abbrev pub file_answer : File → List ℕ
  file_answer f = header (stat_of f) ++ take (kept (length f.content) buflen) f.content

  -- A file that is not there is not answered, and the connection stays open.
  abbrev pub GetOutcome : Io os.World (Unit {0}) → ℕ → Net → Option File → Run → Type 0
  GetOutcome again read s none run = Now leave s run
  GetOutcome again read s (some f) run =
      (fd : Fd) × (s.is_open fd ≡ false)
      × Now (if ltb 0 read then again else leave)
          (emit connfd (file_answer f)
            (consume fd (kept (length f.content) buflen) (opened fd f s)))
          run

  abbrev pub RequestOutcome : Io os.World (Unit {0}) → ℕ → Net → Request → Run → Type 0
  RequestOutcome again read s quit run = Now leave (shut connfd s) run
  RequestOutcome again read s (get name) run = GetOutcome again read s (s.disk name) run
  RequestOutcome again read s wrong_format run =
      (k : ℕ) × (k ≤ 7) × Now leave (shut connfd (emit connfd (take k err_message) s)) run
  RequestOutcome again read s overrun run = run.0 ≡ undefined

  abbrev pub Outcome : Io os.World (Unit {0}) → ℕ → Net → Option (List ℕ) → Run → Type 0
  Outcome again read s none run = run.0 ≡ undefined
  Outcome again read s (some text) run = RequestOutcome again read s (parse_request text) run

  close_and_leave-Now :
      (w : os.World) → Now leave (shut connfd (r.view w)) (close_and_leave os fuel connfd buflen w)
  unfolding close_and_leave
  close_and_leave-Now w =
      let (w', run, moved, calm) = close-Reaches os r connfd w in (w', run, moved)

  -- A single `write` has written a front part of its bytes, whatever it returned.
  pub write_some :
      (bs : List ℕ) (w : os.World)
      → (k : ℕ) × (k ≤ length bs)
        × (r.view (os.write connfd bs w).1 ≡ emit connfd (take k bs) (r.view w))
  write_some bs w = elim (Option-cases (os.write connfd bs w).0) [
    | inl failed ↦
        let (interrupted, same, fewer) = r.write_interrupted connfd bs w failed in
        (0, omega arith, same ∙ sym (emit-nil connfd (r.view w)))
    | inr (k, taken) ↦
        let (progress, short, moved, calm) = r.write_accepts connfd bs w k taken in
        (k, short, moved)
  ]

  error_msg-Now :
      (w : os.World)
      → (k : ℕ) × (k ≤ 7)
        × Now leave
            (shut connfd (emit connfd (take k err_message) (r.view w)))
            (error_msg os connfd w)
  unfolding error_msg
  error_msg-Now w =
      let (k, short, moved) = write_some err_message w in
      let (w', run, moved', calm) = close-Reaches os r connfd (os.write connfd err_message w).1 in
      (k, short, (w', run, moved' ∙ ap (shut connfd) moved))

  get-Outcome :
      (again : Io os.World (Unit {0})) (read : ℕ) (name : FileName) (w : os.World)
      (found : Option File)
      → (r.view w).disk name ≡ found
      → Serves w
      → GetOutcome again read
          (r.view w)
          found
          (answer os fuel connfd buflen rounds again read (get name) w)
  unfolding answer
  get-Outcome again read name w none e serves =
      let (failed, same, calm) = r.open_read_missing name w e (serves.unwritten name) in
      ((os.open_read name w).1, unfold send_file in rw failed, same)
  get-Outcome again read name w (some f) e serves =
      let (fd, w', fresh, run, moved, calm) =
        send_file-Sends os r fuel connfd rounds buflen name f w e (serves.unwritten name)
          serves.large (serves.in_range name f e) (serves.enough_rounds name f e) serves.enough in
      (fd, fresh, (w', rw run (unfold after_file next_request in refl), moved))

  answer-Outcome :
      (again : Io os.World (Unit {0})) (read : ℕ) (q : Request) (w : os.World)
      → Serves w
      → RequestOutcome again read (r.view w) q (answer os fuel connfd buflen rounds again read q w)
  unfolding answer
  answer-Outcome again read quit w serves = close_and_leave-Now w
  answer-Outcome again read (get name) w serves =
      get-Outcome again read name w ((r.view w).disk name) refl serves
  answer-Outcome again read wrong_format w serves = error_msg-Now w
  answer-Outcome again read overrun w serves = refl

  answer_string-Outcome :
      (again : Io os.World (Unit {0})) (read : ℕ) (text : Option (List ℕ)) (w : os.World)
      → Serves w
      → Outcome again read
          (r.view w)
          text
          (answer_string os fuel connfd buflen rounds again read text w)
  unfolding answer_string
  answer_string-Outcome again read none w serves = refl
  answer_string-Outcome again read (some text) w serves =
      answer-Outcome again read (parse_request text) w serves

  pub Serves-mono :
      (w w' : os.World)
      → Serves w
      → (r.view w').disk ≡ (r.view w).disk
      → (r.view w').written ≡ (r.view w).written
      → r.patience w' ≤ r.patience w
      → Serves w'
  Serves-mono w w' s disk written calm = record {
    prompt = s.prompt;
    unwritten = λ name. ap (λ t. t name) written ∙ s.unwritten name;
    in_range = λ name f e. s.in_range name f (sym (ap (λ t. t name) disk) ∙ e);
    enough_rounds = λ name f e. s.enough_rounds name f (sym (ap (λ t. t name) disk) ∙ e);
    large = s.large;
    enough = omega (arith, s.enough);
  }

  -- From the result of `select` to the text that was read.
  pub first_read :
      (again : Io os.World (Unit {0})) (o : Option (List Fd)) (w1 w2 w3 : os.World) (bs : List ℕ)
      → o ≡ some (connfd ∷ [])
      → Wrap.getsockopt_error os connfd w1 ≡ (ok 0, w2)
      → Wrap.read os fuel connfd buflen w2 ≡ (ok bs, w3)
      → after_select os fuel connfd buflen rounds again o w1
        ≡ answer_string os fuel connfd buflen rounds again (length bs) (string_in buflen bs) w3
  unfolding after_select check_error received
  first_read again o w1 w2 w3 bs ready healthy run = rw ready (rw healthy (rw run))

  -- On a machine that keeps the promises of `Reliable`, with a client that speaks in time, files that
  -- fit and fuel enough (`Serves`), one round
  -- reads what has come, up to the size of the buffer, and does what it asks for. A text
  -- with no terminator, and one with a word that is too long for its array, are undefined. `QUIT`
  -- closes the connection. Any other text that is no request is answered by a front part of the error
  -- message, and the connection is closed. A request for a file that is there is answered by header
  -- and file, and the next round follows; if the file is not there, nothing is sent and the
  -- connection is left open.
  pub service_loop-Outcome :
      (requests : ℕ) (w : os.World)
      → Serves w
      → (bs : List ℕ) × (w' : os.World) × Delivered os r connfd buflen bs w w'
        × Outcome
            (service_loop os fuel connfd buflen rounds requests)
            (length bs)
            (r.view w')
            (string_in buflen bs)
            (service_loop os fuel connfd buflen rounds (suc requests) w)
  unfolding service_loop
  service_loop-Outcome requests w serves =
      let again = service_loop os fuel connfd buflen rounds requests in
      let (ready, same1, calm1) = serves.prompt (some timeout_seconds) w in
      let w1 = (os.select (connfd ∷ []) (some timeout_seconds) w).1 in
      let (w2, healthy, same2, calm2) = getsockopt_error-Reaches os r connfd w1 in
      let (bs, w3, run, d) =
        read-Delivers os r fuel connfd buflen w2 (omega (arith, serves.enough)) in
      let d' = Delivered-start os r connfd buflen bs w w2 w3 (same2 ∙ same1) (omega arith) d in
      let serves' =
        Serves-mono w w3 serves
          (ap (λ t. t.disk) d'.moved ∙ disk-consume connfd (length bs) (r.view w))
          (ap (λ t. t.written) d'.moved ∙ written-consume connfd (length bs) (r.view w)) d'.calm in
      (
        bs,
        w3,
        d',
        rw
            (first_read again (os.select (connfd ∷ []) (some timeout_seconds) w).0 w1 w2 w3 bs ready
              healthy run)
            (answer_string-Outcome again (length bs) (string_in buflen bs) w3 serves'),
      )
