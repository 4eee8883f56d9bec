-- ===== src/EarlyServer/Faults.antt =====
-- Two consequences of the loops of server1 and server2: the buffer that is not cleared, and the
-- connection that is used after it was closed.
use dp.Base.{
  ℕ, suc, ◌<◌, ◌≡◌, refl, ◌∙◌, ap, subst, arith, Bool, true, false, Option, none, some, List, [],
  ◌∷◌, length, take, take_all, lt→ltb,
}
use dp.Os.Calls.{Fd, FileName, Os}
use dp.Os.Io.{Result, ok, exit}
use dp.Os.Net.{Net, File, emit, consume, opened}
use dp.Os.Net.Laws.{consume-zero}
use dp.Os.Reliable.{Reliable}
use dp.Sockwrap.Wrap
use dp.Sockwrap.Wrap.Laws.{Delivered}
use dp.FileServer.Defs.{err_message, error_msg}
use dp.FileServer.SendFile.Kept.{kept}
use dp.FileServer.Service.{Request, get, wrong_format}
use dp.FileServer.Service.Rounds.{Serves, file_answer}
use dp.EarlyServer.Requests.{
  overwrite, request_in, next_request, after_refusal, answer, received, after_select, request_loop,
}
use dp.EarlyServer.Rounds.{GetOutcome, RequestOutcome, request_loop-Outcome}

module _ (os : Os) (r : Reliable os) (fuel : ℕ) (connfd : Fd) (buflen rounds timeout : ℕ)
    (breaks : Bool) where
  end_read :
      (bs : List ℕ) (w w' : os.World)
      → Delivered os r connfd buflen bs w w'
      → (r.view w).incoming connfd ≡ []
      → bs ≡ []
  end_read bs w w' d end =
      d.front ∙ ap (take (length bs)) end ∙ take_all (length bs) [] (omega arith)

  abbrev Sent : Net → File → List ℕ → Result (List ℕ) × os.World → Type 0
  Sent s f buf run =
      (fd : Fd) × (w' : os.World) × (run ≡ (ok buf, w'))
      × (r.view w'
          ≡ emit connfd (file_answer os r fuel connfd buflen rounds f)
              (consume fd (kept (length f.content) buflen) (opened fd f s)))

  -- The outcome of a round that has read nothing.
  abbrev Quiet :
      (List ℕ → os.World → Result (List ℕ) × os.World)
      → List ℕ
      → Net
      → Request
      → Result (List ℕ) × os.World
      → Type 0
  Quiet again buf s q run =
      RequestOutcome os r fuel connfd buflen rounds timeout breaks again 0 buf s q run

  Quiet-Sent :
      (again : List ℕ → os.World → Result (List ℕ) × os.World) (buf : List ℕ) (s : Net)
      (run : Result (List ℕ) × os.World) (q : Request) (name : FileName) (f : File)
      → q ≡ get name
      → s.disk name ≡ some f
      → Quiet again buf s q run
      → Sent s f buf run
  Quiet-Sent again buf s run q name f e there outcome =
      let got = subst (λ t. Quiet again buf s t run) e outcome in
      let (fd, fresh, (w', left, sent)) =
        subst (λ o. GetOutcome os r fuel connfd buflen rounds timeout breaks again 0 buf s o run)
          there got in
      (fd, w', left, sent)

  -- On the machines of `Serves`: if the client has closed its side of the connection, without QUIT, and the buffer still holds its
  -- request for a file that is there, the round that reads the end of the stream sends the file
  -- once more, leaves the loop, and does not close the connection.
  pub request_loop-repeats :
      (requests : ℕ) (buf : List ℕ) (w : os.World) (name : FileName) (f : File)
      → Serves os r fuel connfd buflen rounds w
      → (r.view w).incoming connfd ≡ []
      → request_in buf ≡ get name
      → (r.view w).disk name ≡ some f
      → Sent
          (r.view w)
          f
          buf
          (request_loop os fuel connfd buflen rounds timeout breaks (suc requests) buf w)
  unfolding overwrite
  request_loop-repeats requests buf w name f serves end request there =
      let again = request_loop os fuel connfd buflen rounds timeout breaks requests in
      let run = request_loop os fuel connfd buflen rounds timeout breaks (suc requests) buf w in
      let (bs, w', d, outcome) =
        request_loop-Outcome os r fuel connfd buflen rounds timeout breaks requests buf w serves in
      let e = end_read bs w w' d end in
      let same : r.view w' ≡ r.view w =
        d.moved
        ∙ ap (λ (t : List ℕ). consume connfd (length t) (r.view w)) e
        ∙ consume-zero connfd (r.view w) in
      let read_none =
        subst
          (λ t.
            RequestOutcome os r fuel connfd buflen rounds timeout breaks again (length t)
              (overwrite t buf) (r.view w') (request_in (overwrite t buf)) run)
          e outcome in
      subst (λ s. Sent s f buf run) same
        (Quiet-Sent again buf (r.view w') run (request_in buf) name f request
          (ap (λ (t : Net). t.disk name) same ∙ there) read_none)

-- What the manual pages say of a descriptor after `close`: the calls on it fail.
pub record Strict (os : Os) : Type 0 where
  pub is_open : os.World → Fd → Bool
  pub close_closes :
      (fd : Fd) (w : os.World) → (os.close fd w).0 ≡ true → is_open (os.close fd w).1 fd ≡ false
  pub select_closed :
      (fd : Fd) (limit : Option ℕ) (w : os.World)
      → is_open w fd ≡ false
      → ((os.select (fd ∷ []) limit w).0 ≡ none)
        × (is_open (os.select (fd ∷ []) limit w).1 fd ≡ false)
  pub so_error_closed :
      (fd : Fd) (w : os.World) → is_open w fd ≡ false → (os.so_error fd w).0 ≡ none

module _ (os : Os) (strict : Strict os) (fuel : ℕ) (connfd : Fd) (buflen rounds timeout : ℕ) where
  -- A round on a connection that is closed ends the process.
  closed_round :
      (requests : ℕ) (buf : List ℕ) (w : os.World)
      → strict.is_open w connfd ≡ false
      → (w' : os.World) × (request_loop os fuel connfd buflen rounds timeout false
            (suc requests)
            buf
            w
          ≡ (exit 1, w'))
  unfolding request_loop after_select
  closed_round requests buf w e =
      let (bad, still) = strict.select_closed connfd (some timeout) w e in
      let w1 = (os.select (connfd ∷ []) (some timeout) w).1 in
      let failed = strict.so_error_closed connfd w1 still in
      (
        (os.so_error connfd w1).1,
        rw bad (unfold Wrap.getsockopt_error Wrap.check_some in rw failed refl),
      )

  -- If a client's bytes make a text in the buffer that is no request, server1, which refuses it,
  -- closes the connection and goes on reading from it, ends as a process with status 1.
  pub received-exits :
      (requests : ℕ) (buf bs : List ℕ) (w : os.World)
      → 0 < length bs
      → request_in (overwrite bs buf) ≡ wrong_format
      → (os.close connfd (os.write connfd err_message w).1).0 ≡ true
      → (w' : os.World) × (received os fuel connfd buflen rounds timeout false
            (request_loop os fuel connfd buflen rounds timeout false (suc requests))
            buf
            bs
            w
          ≡ (exit 1, w'))
  unfolding received answer after_refusal next_request error_msg
  received-exits requests buf bs w some_read request closes =
      let w1 = (os.close connfd (os.write connfd err_message w).1).1 in
      let (w', run) =
        closed_round requests (overwrite bs buf) w1
          (strict.close_closes connfd (os.write connfd err_message w).1 closes) in
      (
        w',
        rw (request, lt→ltb 0 (length bs) some_read)
            (unfold Wrap.close Wrap.check_done in rw closes run),
      )
