-- ===== src/Conversation/Asking.antt =====
-- One turn of the client of lab2/lab2.3/source/client1 in the conversation.
use dp.Base.{
  subst, ℕ, zero, suc, Option, ◌+◌, ◌≤◌, ◌<◌, ◌≡◌, refl, sym, ap, ◌∙◌, arith, some, List, [], ◌∷◌,
  ◌++◌, length, take, drop,
}
use dp.Base.Words.{u32_mod}
use dp.Os.Calls.{Fd, FileName, Os}
use dp.Os.Io.{Io, Result, ok}
use dp.Os.Net.{File, held, arrive}
use dp.Os.Net.Laws.{incoming-arrive, incoming-consume, incoming-emit, held-consume, written-consume}
use dp.Os.Net.Held.{NoneOpen, NoneOpen-same, Saved, Saved-from, heard-NoneOpen, held-heard}
use dp.Os.Reliable.{Reliable}
use dp.Sockwrap.Wrap
use dp.Sockwrap.Exact.{writen, readn_or_exit}
use dp.Sockwrap.Exact.Reading.{readn_or_exit-Took}
use dp.Sockwrap.Exact.Writing.{writen-Gave}
use dp.FileServer.Defs.{filename_len}
use dp.FileServer.SendFile.{int_limit}
use dp.FileServer.SendFile.Sent.{header, stat_of}
use dp.FileClient.Commands.Laws.{get_line, length-get_line}
use dp.FileClient.Receive.{receive_file}
use dp.FileClient.Receive.Saved.{answer_after_plus}
use dp.FileClient.Receive.Keeps.{receive_file_keeps}
use dp.FileClient.Batch.{ask, after_wait, take_answer, receive_argument-receive_file}
use dp.Conversation.{asked, waited, Hears}

-- `select` returns without an interruption.
pub select_ready :
    (os : Os) (fuel : ℕ) (v : os.World) (fds ready : List Fd) (limit : Option ℕ)
    → 0 < fuel
    → (os.select fds limit v).0 ≡ some ready
    → Wrap.select os fuel fds limit v ≡ (ok ready, (os.select fds limit v).1)
unfolding Wrap.select Wrap.retry_select
select_ready os zero v fds ready limit pos some_ready = absurd (omega arith)
select_ready os (suc fuel) v fds ready limit pos some_ready = rw some_ready refl

module _ (os : Os) (r : Reliable os) (fuel : ℕ) (sockfd : Fd) (buflen rounds : ℕ) where
  -- The whole answer has come.
  pub record Told (f : File) (v : os.World) : Type 0 where
    pub come : (r.view v).incoming sockfd ≡ header (stat_of f) ++ f.content
    pub enough : 4 + r.patience v < fuel
    pub range : length f.content < u32_mod
    pub large : 0 < buflen
    pub enough_rounds : length f.content < rounds
    pub none_open : NoneOpen (r.view v)

  abbrev pub whole_answer : File → List ℕ
  whole_answer f = header (stat_of f) ++ f.content

  first_of_answer : (f : File) → take 1 (whole_answer f) ≡ b'+' ∷ []
  unfolding header
  first_of_answer f = refl

  rest_of_answer : (f : File) → drop 1 (whole_answer f) ≡ answer_after_plus (stat_of f) f.content
  unfolding header
  rest_of_answer f = refl

  -- The first byte is read, and then the file, which is saved under the name less its last byte.
  pub answer-saves :
      (name : FileName) (c : ℕ) (f : File) (v : os.World)
      → Told f v
      → (v1 : os.World) × (v2 : os.World) × (readn_or_exit os fuel sockfd 1 v
          ≡ (ok (b'+' ∷ []), v1))
        × (receive_file os fuel sockfd buflen rounds (name ++ (c ∷ [])) v1 ≡ (ok tt, v2))
        × Saved name f.content (r.view v) (r.view v2)
        × NoneOpen (r.view v2)
        × ((r.view v2).incoming sockfd ≡ [])
        × (r.patience v2 ≤ r.patience v)
  unfolding stat_of
  answer-saves name c f v told =
      let (v1, run1, moved1, calm1) =
        readn_or_exit-Took os r fuel sockfd 1 v (omega (arith, told.enough)) in
      let plus = ap (take 1) told.come ∙ first_of_answer f in
      let answer =
        ap (λ t. t.incoming sockfd) moved1
        ∙ incoming-consume sockfd 1 (r.view v)
        ∙ ap (drop 1) told.come
        ∙ rest_of_answer f in
      let none_open1 =
        NoneOpen-same (r.view v) (r.view v1)
          (ap (λ t. t.written) moved1 ∙ written-consume sockfd 1 (r.view v)) told.none_open in
      let (v2, run2, found, none_open, read, calm2) =
        receive_file_keeps os r fuel sockfd buflen (stat_of f) f.content v1 answer
          (omega (arith, told.enough)) rounds name c told.range refl told.large told.enough_rounds
          none_open1 in
      (
        v1,
        v2,
        run1 ∙ ap (λ bs. (ok bs, v1)) plus,
        run2,
        Saved-from name f.content (r.view v) (r.view v1) (r.view v2)
            (λ other. ap (held other) moved1 ∙ held-consume sockfd 1 other (r.view v)) found,
        none_open,
        read,
        omega arith,
      )

  -- From the return of `select` on: the file is saved, and the stream is used up.
  after_wait-saves :
      (name request : List ℕ) (f : File) (v : os.World)
      → Told f v
      → (v' : os.World) × ((again : Io os.World (Unit {0}))
          → after_wait os fuel sockfd buflen rounds again name request (sockfd ∷ []) v ≡ again v')
        × Saved name f.content (r.view v) (r.view v')
        × NoneOpen (r.view v')
        × ((r.view v').incoming sockfd ≡ [])
        × (r.patience v' ≤ r.patience v)
  unfolding after_wait take_answer
  after_wait-saves name request f v told =
      let (v1, v2, plus, run, found, none_open, read, calm) = answer-saves name 0 f v told in
      let received =
        sym (receive_argument-receive_file os fuel sockfd buflen rounds name 0 v1) ∙ run in
      (v2, λ again. rw (plus, received) refl, found, none_open, read, calm)

  -- The client is free to ask: nothing is left of an earlier answer, and its fuel covers a request.
  pub record Idle (v : os.World) : Type 0 where
    pub read_up : (r.view v).incoming sockfd ≡ []
    pub enough : 260 + r.patience v < fuel
    pub large : 0 < buflen
    pub none_open : NoneOpen (r.view v)

  ask_run :
      (again : Io os.World (Unit {0})) (name text : List ℕ) (k : Option ℕ) (v v3 : os.World)
      → (writen os fuel sockfd text v).0 ≡ ok k
      → (os.select (sockfd ∷ []) (some 10) (writen os fuel sockfd text v).1).0 ≡ some (sockfd ∷ [])
      → 0 < fuel
      → after_wait os fuel sockfd buflen rounds again name text
          (sockfd ∷ [])
          (os.select (sockfd ∷ []) (some 10) (writen os fuel sockfd text v).1).1
        ≡ again v3
      → ask os fuel sockfd buflen rounds again name (some text) v ≡ again v3
  unfolding ask
  ask_run again name text k v v3 wrote ready pos run =
      rw
        (
          wrote,
          select_ready os fuel (writen os fuel sockfd text v).1 (sockfd ∷ []) (sockfd ∷ [])
              (some 10) pos ready,
        )
        run

  -- The client goes on as in the state `v'`, in which the file is saved.
  pub turn-saves :
      (name : FileName) (f : File) (v : os.World)
      → Idle v
      → length name < filename_len
      → 13 + length f.content < int_limit
      → length f.content < rounds
      → Hears os r fuel sockfd buflen rounds name (whole_answer f) v
      → (v' : os.World) × ((again : Io os.World (Unit {0}))
          → ask os fuel sockfd buflen rounds again name (some (get_line name)) v ≡ again v')
        × Saved name f.content (r.view v) (r.view v')
        × Idle v'
  turn-saves name f v idle short range enough_rounds hears =
      let (v1, wrote, moved1, calm1) =
        writen-Gave os r fuel sockfd (get_line name) v
          (omega (arith, length-get_line name, idle.enough)) in
      let text = get_line name in
      let v2 = waited os r fuel sockfd buflen rounds name v in
      let at : asked os r fuel sockfd buflen rounds name v ≡ v1 =
        ap (λ (t : Result (Option ℕ) × os.World). t.1) wrote in
      let moved2 =
        hears.heard ∙ ap (arrive sockfd (whole_answer f)) (ap (λ t. r.view t) at ∙ moved1) in
      let none_open2 =
        subst NoneOpen (sym moved2)
          (heard-NoneOpen sockfd text (whole_answer f) (r.view v) idle.none_open) in
      let told : Told f v2 = record {
        come =
            ap (λ t. t.incoming sockfd) hears.heard
            ∙ incoming-arrive sockfd (whole_answer f) _
            ∙ ap (λ t. (r.view t).incoming sockfd ++ whole_answer f) at
            ∙ ap (λ t. t.incoming sockfd ++ whole_answer f) moved1
            ∙ ap (λ t. t ++ whole_answer f)
                (incoming-emit sockfd sockfd text (r.view v) ∙ idle.read_up);
        enough = omega (arith, hears.calm, ap r.patience at, idle.enough);
        range = omega (arith, range);
        large = idle.large;
        enough_rounds = enough_rounds;
        none_open = none_open2;
      } in
      let (v3, run, found, none_open, read, calm) = after_wait-saves name text f v2 told in
      (
        v3,
        λ again.
            ask_run again name text (some (length text)) v v3
              (ap (λ (t : Result (Option ℕ) × os.World). t.0) wrote) hears.ready
              (omega (arith, idle.enough)) (run again),
        Saved-from name f.content (r.view v) (r.view v2) (r.view v3)
            (λ other.
              ap (held other) moved2
              ∙ held-heard sockfd text (whole_answer f) other (r.view v) idle.none_open)
            found,
        record {
          none_open = none_open;
          read_up = read;
          enough = omega (arith, hears.calm, ap r.patience at, idle.enough);
          large = idle.large;
        },
      )
