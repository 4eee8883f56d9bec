-- ===== src/EarlyServer/Rounds.antt =====
-- One round of the loop of server1 and server2 on a healthy machine, for every text that is in the
-- buffer.
use dp.Base.{
  ℕ, suc, ◌≤◌, ◌≡◌, refl, ap, ◌∙◌, arith, Bool, false, Option, none, some, List, [], ◌∷◌, length,
  take, ltb, if◌then◌else◌,
}
use dp.Os.Calls.{Fd, FileName, Os}
use dp.Os.Io.{Io, Result, ok, undefined, pure}
use dp.Os.Net.{Net, File, emit, consume, opened, shut}
use dp.Os.Net.Laws.{disk-consume, written-consume}
use dp.Os.Reliable.{Reliable}
use dp.Sockwrap.Wrap
use dp.Sockwrap.Wrap.Laws.{
  Delivered, Delivered-start, read-Delivers, close-Reaches, getsockopt_error-Reaches,
}
use dp.FileServer.Defs.{err_message, error_msg}
use dp.FileServer.SendFile.{send_file}
use dp.FileServer.SendFile.Kept.{kept}
use dp.FileServer.SendFile.Sent.{send_file-Sends}
use dp.FileServer.Service.{Request, quit, get, wrong_format, overrun}
use dp.FileServer.Service.Rounds.{Serves, Serves-mono, file_answer, write_some}
use dp.EarlyServer.Requests.{
  overwrite, request_in, close_and_leave, next_request, after_file, after_refusal, answer, received,
  check_error, after_select, request_loop,
}

module _ (os : Os) (r : Reliable os) (fuel : ℕ) (connfd : Fd) (buflen rounds timeout : ℕ)
    (breaks : Bool) where
  abbrev pub Run : Type 0
  Run = Result (List ℕ) × os.World

  abbrev pub Again : Type 0
  Again = List ℕ → Io os.World (List ℕ)

  -- The process has gone on as `next`, in a state where the streams are `s`.
  abbrev pub Now : Io os.World (List ℕ) → Net → Run → Type 0
  Now next s run = (w' : os.World) × (run ≡ next w') × (r.view w' ≡ s)

  -- The loop goes on if the last read gave any bytes.
  abbrev pub going_on : Again → ℕ → List ℕ → Io os.World (List ℕ)
  going_on again read buf = if ltb 0 read then again buf else pure buf

  abbrev pub GetOutcome : Again → ℕ → List ℕ → Net → Option File → Run → Type 0
  GetOutcome again read buf s none run = Now (pure buf) s run
  GetOutcome again read buf s (some f) run =
      (fd : Fd) × (s.is_open fd ≡ false)
      × Now (going_on again read buf)
          (emit connfd (file_answer os r fuel connfd buflen rounds f)
            (consume fd (kept (length f.content) buflen) (opened fd f s)))
          run

  abbrev pub RequestOutcome : Again → ℕ → List ℕ → Net → Request → Run → Type 0
  RequestOutcome again read buf s quit run = Now (pure buf) (shut connfd s) run
  RequestOutcome again read buf s (get name) run = GetOutcome again read buf s (s.disk name) run
  RequestOutcome again read buf s wrong_format run =
      (k : ℕ) × (k ≤ 7)
      × Now (if breaks then pure buf else going_on again read buf)
          (shut connfd (emit connfd (take k err_message) s)) run
  RequestOutcome again read buf s overrun run = run.0 ≡ undefined

  quit-Outcome :
      (buf : List ℕ) (w : os.World)
      → Now
          (pure buf)
          (shut connfd (r.view w))
          (close_and_leave os fuel connfd buflen rounds timeout breaks buf w)
  unfolding close_and_leave
  quit-Outcome buf w =
      let (w', run, moved, calm) = close-Reaches os r connfd w in (w', rw run refl, moved)

  refused-Outcome :
      (again : Again) (read : ℕ) (buf : List ℕ) (w : os.World)
      → RequestOutcome again read buf
          (r.view w)
          wrong_format
          (answer os fuel connfd buflen rounds timeout breaks again read buf wrong_format w)
  unfolding answer after_refusal next_request error_msg
  refused-Outcome again read buf w =
      let (k, short, moved) = write_some os r fuel connfd buflen rounds err_message w in
      let (w', run, moved', calm) = close-Reaches os r connfd (os.write connfd err_message w).1 in
      (k, short, (w', rw run refl, moved' ∙ ap (shut connfd) moved))

  get-Outcome :
      (again : Again) (read : ℕ) (buf : List ℕ) (name : FileName) (w : os.World)
      (found : Option File)
      → (r.view w).disk name ≡ found
      → Serves os r fuel connfd buflen rounds w
      → GetOutcome again read buf
          (r.view w)
          found
          (answer os fuel connfd buflen rounds timeout breaks again read buf (get name) w)
  unfolding answer
  get-Outcome again read buf name w none e serves =
      let (failed, same, calm) = r.open_read_missing name w e (serves.unwritten name) in
      ((os.open_read name w).1, unfold send_file after_file in rw failed, same)
  get-Outcome again read buf name w (some f) e serves =
      let (fd, w', fresh, run, moved, calm) =
        send_file-Sends os r fuel connfd rounds buflen name f w e (serves.unwritten name)
          serves.large (serves.in_range name f e) (serves.enough_rounds name f e) serves.enough in
      (fd, fresh, (w', rw run (unfold after_file next_request in refl), moved))

  answer-Outcome :
      (again : Again) (read : ℕ) (buf : List ℕ) (q : Request) (w : os.World)
      → Serves os r fuel connfd buflen rounds w
      → RequestOutcome again read buf
          (r.view w)
          q
          (answer os fuel connfd buflen rounds timeout breaks again read buf q w)
  unfolding answer
  answer-Outcome again read buf quit w serves = quit-Outcome buf w
  answer-Outcome again read buf (get name) w serves =
      get-Outcome again read buf name w ((r.view w).disk name) refl serves
  answer-Outcome again read buf wrong_format w serves = refused-Outcome again read buf w
  answer-Outcome again read buf overrun w serves = refl

  -- From the result of `select` to the bytes that were read.
  first_read :
      (again : Again) (buf : List ℕ) (o : Option (List Fd)) (w1 w2 w3 : os.World) (bs : List ℕ)
      → o ≡ some (connfd ∷ [])
      → Wrap.getsockopt_error os connfd w1 ≡ (ok 0, w2)
      → Wrap.read os fuel connfd buflen w2 ≡ (ok bs, w3)
      → after_select os fuel connfd buflen rounds timeout breaks again buf o w1
        ≡ answer os fuel connfd buflen rounds timeout breaks again
            (length bs)
            (overwrite bs buf)
            (request_in (overwrite bs buf))
            w3
  unfolding after_select check_error received
  first_read again buf o w1 w2 w3 bs ready healthy run = rw ready (rw healthy (rw run))

  -- On a machine that keeps the promises of `Reliable`, with a client that speaks in time, files that
  -- fit and fuel enough (`Serves`), one round
  -- stores what has come over the front of the buffer and does what the whole buffer asks for: QUIT
  -- closes the connection; a file that is there is sent, with its header, and the loop goes on if
  -- bytes were read; for a file that is not there nothing is sent and nothing closed; what is no
  -- request is answered by a front part of the error message, and the connection is closed, after
  -- which server2 leaves the loop and server1 goes on; a word too long for its array, and a buffer
  -- without a terminator that does not start with QUIT, are undefined.
  pub request_loop-Outcome :
      (requests : ℕ) (buf : List ℕ) (w : os.World)
      → Serves os r fuel connfd buflen rounds w
      → (bs : List ℕ) × (w' : os.World) × Delivered os r connfd buflen bs w w'
        × RequestOutcome
            (request_loop os fuel connfd buflen rounds timeout breaks requests)
            (length bs)
            (overwrite bs buf)
            (r.view w')
            (request_in (overwrite bs buf))
            (request_loop os fuel connfd buflen rounds timeout breaks (suc requests) buf w)
  unfolding request_loop
  request_loop-Outcome requests buf w serves =
      let again = request_loop os fuel connfd buflen rounds timeout breaks requests in
      let (ready, same1, calm1) = serves.prompt (some timeout) w in
      let w1 = (os.select (connfd ∷ []) (some timeout) w).1 in
      let (w2, healthy, same2, calm2) = getsockopt_error-Reaches os r connfd w1 in
      let (bs, w3, run, d) =
        read-Delivers os r fuel connfd buflen w2 (omega (arith, serves.enough)) in
      let d' = Delivered-start os r connfd buflen bs w w2 w3 (same2 ∙ same1) (omega arith) d in
      let serves' =
        Serves-mono os r fuel connfd buflen rounds w w3 serves
          (ap (λ t. t.disk) d'.moved ∙ disk-consume connfd (length bs) (r.view w))
          (ap (λ t. t.written) d'.moved ∙ written-consume connfd (length bs) (r.view w)) d'.calm in
      (
        bs,
        w3,
        d',
        rw
            (first_read again buf (os.select (connfd ∷ []) (some timeout) w).0 w1 w2 w3 bs ready
              healthy run)
            (answer-Outcome again (length bs) (overwrite bs buf) (request_in (overwrite bs buf)) w3
              serves'),
      )
