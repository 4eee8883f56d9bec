-- ===== src/Conversation/Serving.antt =====
-- One turn of the server of lab3/es3 in the conversation.
use dp.Base.{
  ℕ, suc, ◌≤◌, ◌<◌, ◌≡◌, refl, ap, ap₂, ◌∙◌, ◌%◌, ◌⊎◌, arith, true, some, List, [], ◌∷◌, ◌++◌,
  length, take, drop, take_all, drop_all, lt→ltb,
}
use dp.Base.Scan.{IsText, string_in_text}
use dp.Os.Calls.{Fd, FileName, Os}
use dp.Os.Io.{Io}
use dp.Os.Net.{File, consume}
use dp.Os.Net.Laws.{
  incoming-arrive, arrive_keeps, incoming-consume, file_sent_keeps, disk-consume, written-consume,
  is_open-consume, sent-consume,
}
use dp.Os.Reliable.{Reliable}
use dp.Sockwrap.Wrap.Laws.{getsockopt_error-Reaches, read_all-Reaches}
use dp.FileServer.Defs.{timeout_seconds}
use dp.FileServer.SendFile.Kept.{kept, kept-eq_iff}
use dp.FileServer.SendFile.Sent.{header, stat_of, send_file-Sends}
use dp.FileServer.Service.{
  get, parse_request, service_loop, answer_string, answer, after_file, next_request,
}
use dp.FileServer.Service.Rounds.{Serves, Serves-mono, first_read}
use dp.FileClient.Commands.Laws.{get_line, parse_request-name, get_line-IsText, length-get_line}
use dp.Conversation.{Wanted, Carries, Listening}

module _ (os : Os) (r : Reliable os) (fuel : ℕ) (connfd : Fd) (buflen rounds : ℕ)
    (deliver : List ℕ → os.World → os.World)
    (net : Carries os r fuel connfd buflen rounds deliver) where
  -- A request has come, and nothing else.
  pub record Requested (text : List ℕ) (w : os.World) : Type 0 where
    serves : Serves os r fuel connfd buflen rounds w
    come : (r.view w).incoming connfd ≡ text
    in_use : (r.view w).is_open connfd ≡ true

  pub deliver-Requested :
      (text : List ℕ) (w : os.World)
      → Listening os r fuel connfd buflen rounds deliver w
      → Requested text (deliver text w)
  deliver-Requested text w l =
      let (disk, written, sent, is_open) = arrive_keeps connfd text (r.view w) in
      let moved = net.arrives text w in
      record {
        serves =
            Serves-mono os r fuel connfd buflen rounds w (deliver text w) l.serves
              (ap (λ t. t.disk) moved ∙ disk) (ap (λ t. t.written) moved ∙ written)
              (net.calm text w);
        come =
            ap (λ t. t.incoming connfd) moved
            ∙ incoming-arrive connfd text (r.view w)
            ∙ ap (λ t. t ++ text) l.quiet;
        in_use = ap (λ t. t.is_open connfd) moved ∙ ap (λ t. t connfd) is_open ∙ l.in_use;
      }

  -- The request is read, and becomes a call of `answer`.
  pub request_read :
      (text : List ℕ) (w : os.World)
      → Requested text w
      → length text < buflen
      → IsText text
      → (w' : os.World) × ((requests : ℕ)
          → service_loop os fuel connfd buflen rounds (suc requests) w
            ≡ answer os fuel connfd buflen rounds
                (service_loop os fuel connfd buflen rounds requests)
                (length text)
                (parse_request text)
                w')
        × (r.view w' ≡ consume connfd (length text) (r.view w))
        × (r.patience w' ≤ r.patience w)
  unfolding service_loop answer_string
  request_read text w q short is_text =
      let (ready, same1, calm1) = q.serves.prompt (some timeout_seconds) w in
      let w1 = (os.select (connfd ∷ []) (some timeout_seconds) w).1 in
      let (w2, healthy, same2, calm2) = getsockopt_error-Reaches os r connfd w1 in
      let here = ap (λ t. t.incoming connfd) (same2 ∙ same1) ∙ q.come in
      let (w3, run, moved, calm3) =
        read_all-Reaches os r fuel connfd buflen w2 net.one_piece (omega (arith, ap length here))
          (omega (arith, q.serves.enough)) in
      (
        w3,
        λ requests.
            first_read os r fuel connfd buflen rounds
              (service_loop os fuel connfd buflen rounds requests)
              (os.select (connfd ∷ []) (some timeout_seconds) w).0 w1 w2 w3
              ((r.view w2).incoming connfd) ready healthy run
            ∙ rw (here, string_in_text buflen text short is_text) refl,
        moved ∙ ap₂ (λ k. consume connfd k) (ap length here) (same2 ∙ same1),
        omega arith,
      )

  -- The server goes on as in the state `w'`, in which it has written `bs` and waits for a request.
  pub record Answered (name : FileName) (bs : List ℕ) (w w' : os.World) : Type 0 where
    pub round :
        (requests : ℕ)
        → service_loop os fuel connfd buflen rounds (suc requests) (deliver (get_line name) w)
          ≡ service_loop os fuel connfd buflen rounds requests w'
    pub written : (r.view w').sent connfd ≡ (r.view w).sent connfd ++ bs
    pub listening : Listening os r fuel connfd buflen rounds deliver w'
    pub same_disk : (r.view w').disk ≡ (r.view w).disk

  -- The file is sent, after the request was read in the state `w1`.
  file-Answered :
      (name text : List ℕ) (f : File) (w w1 : os.World)
      → (r.view w).disk name ≡ some f
      → (length f.content % buflen ≡ 0) ⊎ (13 < length f.content % buflen)
      → 0 < length text
      → Requested text w
      → r.view w1 ≡ consume connfd (length text) (r.view w)
      → r.patience w1 ≤ r.patience w
      → (w' : os.World) × ((again : Io os.World (Unit {0}))
          → answer os fuel connfd buflen rounds again (length text) (get name) w1 ≡ again w')
        × ((r.view w').sent connfd ≡ (r.view w).sent connfd ++ (header (stat_of f) ++ f.content))
        × Listening os r fuel connfd buflen rounds deliver w'
        × ((r.view w').disk ≡ (r.view w).disk)
  unfolding answer after_file next_request
  file-Answered name text f w w1 found whole some_text q moved calm =
      let n = kept (length f.content) buflen in
      let serves1 =
        Serves-mono os r fuel connfd buflen rounds w w1 q.serves
          (ap (λ t. t.disk) moved ∙ disk-consume connfd (length text) (r.view w))
          (ap (λ t. t.written) moved ∙ written-consume connfd (length text) (r.view w)) calm in
      let found1 =
        ap (λ t. t.disk name) moved
        ∙ ap (λ t. t name) (disk-consume connfd (length text) (r.view w))
        ∙ found in
      let (fd, w2, fresh, run, moved2, calm2) =
        send_file-Sends os r fuel connfd rounds buflen name f w1 found1 (serves1.unwritten name)
          serves1.large (serves1.in_range name f found1) (serves1.enough_rounds name f found1)
          serves1.enough in
      let in_use1 =
        ap (λ t. t.is_open connfd) moved
        ∙ is_open-consume connfd (length text) connfd (r.view w)
        ∙ q.in_use in
      let bs = header (stat_of f) ++ take n f.content in
      let (quiet, in_use2, sent, disk, written) =
        file_sent_keeps connfd fd n bs f (r.view w1) fresh in_use1 in
      let all : take n f.content ≡ f.content =
        ap (λ k. take k f.content) ((kept-eq_iff (length f.content) buflen serves1.large).1 whole)
        ∙ take_all (length f.content) f.content (omega arith) in
      (
        w2,
        λ again. rw run (rw (lt→ltb 0 (length text) some_text) refl),
        ap (λ t. t.sent connfd) moved2
            ∙ sent
            ∙ ap₂ (λ s t. s ++ (header (stat_of f) ++ t))
                (ap (λ t. t.sent connfd) moved
                  ∙ sent-consume connfd (length text) connfd (r.view w))
                all,
        record {
          serves =
              Serves-mono os r fuel connfd buflen rounds w1 w2 serves1
                (ap (λ t. t.disk) moved2 ∙ disk) (ap (λ t. t.written) moved2 ∙ written) calm2;
          quiet =
              ap (λ t. t.incoming connfd) moved2
              ∙ quiet
              ∙ ap (λ t. t.incoming connfd) moved
              ∙ incoming-consume connfd (length text) (r.view w)
              ∙ ap (drop (length text)) q.come
              ∙ drop_all (length text) text (omega arith);
          in_use = ap (λ t. t.is_open connfd) moved2 ∙ in_use2;
        },
        ap (λ t. t.disk) moved2
            ∙ disk
            ∙ ap (λ t. t.disk) moved
            ∙ disk-consume connfd (length text) (r.view w),
      )

  pub turn-Answered :
      (name : FileName) (f : File) (w : os.World)
      → Listening os r fuel connfd buflen rounds deliver w
      → Wanted buflen (r.view w) name f
      → (w' : os.World) × Answered name (header (stat_of f) ++ f.content) w w'
  turn-Answered name f w l wanted =
      let text = get_line name in
      let (disk, written, sent, is_open) = arrive_keeps connfd text (r.view w) in
      let moved = net.arrives text w in
      let same_disk = ap (λ t. t.disk) moved ∙ disk in
      let q = deliver-Requested text w l in
      let (w1, run1, moved1, calm1) =
        request_read text (deliver text w) q (omega (arith, wanted.fits, length-get_line name))
          (get_line-IsText name wanted.text) in
      let (w2, run2, sent2, listening, disk2) =
        file-Answered name text f (deliver text w) w1 (ap (λ t. t name) same_disk ∙ wanted.found)
          wanted.whole (omega (arith, length-get_line name)) q moved1 calm1 in
      (
        w2,
        record {
          round = λ requests.
              run1 requests
              ∙ rw (parse_request-name name wanted.word wanted.not_empty wanted.short)
                  (run2 (service_loop os fuel connfd buflen rounds requests));
          written =
              sent2
              ∙ ap (λ t. t ++ (header (stat_of f) ++ f.content))
                  (ap (λ t. t.sent connfd) moved ∙ ap (λ t. t connfd) sent);
          listening = listening;
          same_disk = disk2 ∙ same_disk;
        },
      )
