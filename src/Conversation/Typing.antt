-- ===== src/Conversation/Typing.antt =====
-- Two rounds of the client of lab3/es2: a typed request, and its answer.
use dp.Base.{
  ℕ, suc, ◌+◌, ◌<◌, ◌≡◌, ◌≢◌, subst, refl, sym, ap, ◌∙◌, arith, false, true, Option, some, none,
  List, [], ◌∷◌, ◌++◌, length, ==_self, length-append,
}
use dp.Base.Scan.{before_nul-append, is_space, IsWord, IsText, IsText-append}
use dp.Os.Calls.{Fd, FileName, Os}
use dp.Os.Io.{Result, ok}
use dp.Os.Net.{File, emit, arrive, held}
use dp.Os.Net.Held.{NoneOpen, Saved, Saved-from, heard-NoneOpen, held-heard}
use dp.Os.Net.Laws.{incoming-arrive, incoming-emit}
use dp.Os.Reliable.{Reliable}
use dp.Sockwrap.Wrap
use dp.Sockwrap.Wrap.Laws.{getsockopt_error-Reaches}
use dp.Sockwrap.Exact.{readn_or_exit}
use dp.FileServer.Defs.{get_word, filename_len}
use dp.FileServer.SendFile.{int_limit}
use dp.FileClient.Commands.{send_get}
use dp.FileClient.Commands.Laws.{get_line, send_get-Gave}
use dp.FileClient.Receive.{receive_file}
use dp.FileClient.Session.{
  Session, is_set, first_byte, check_abort, typed_line, typed, answered, receive_named_answer,
  copy_name, from_server, dispatch, session,
}
use dp.Conversation.Asking.{select_ready, whole_answer, Told, Idle, answer-saves}
use dp.Conversation.Typed.{typed_get, woken, line_read, Types, requested, Comes}

get_word-IsWord : IsWord get_word
unfolding is_space
get_word-IsWord = (refl, (refl, (refl, tt)))

get_word-IsText : IsText get_word
get_word-IsText = (omega arith, (omega arith, (omega arith, tt)))

-- A descriptor other than that of the standard input is ready.
input_not_set : (sockfd : Fd) → sockfd ≢ 0 → is_set 0 (sockfd ∷ []) ≡ false
unfolding is_set
input_not_set sockfd h = ground (arith, h)

socket_set : (sockfd : Fd) → is_set sockfd (sockfd ∷ []) ≡ true
unfolding is_set
socket_set sockfd = ground (arith, ==_self sockfd)

-- The client after a command that was typed, or after the first byte of an answer was read.
abbrev pub holding : List ℕ → Session
holding buffer = record { receive_buffer = some buffer; abort = false }

module _ (os : Os) (r : Reliable os) (fuel rounds : ℕ) (sockfd : Fd) (buflen : ℕ) where
  -- The name is copied from the typed line, with the byte that ends the line.
  copy_name-typed_get :
      (name : FileName)
      → IsText name
      → copy_name os fuel rounds sockfd buflen (some (typed_get name)) ≡ some (name ++ (10 ∷ []))
  unfolding copy_name
  copy_name-typed_get name text =
      before_nul-append (name ++ (10 ∷ [])) (IsText-append name (10 ∷ []) text (omega arith, tt))

  first_round :
      (turns : ℕ) (old : Option (List ℕ)) (name : FileName) (v v3 : os.World)
      → 0 < fuel
      → Types os r fuel rounds sockfd buflen (typed_get name) v
      → send_get os fuel sockfd (typed_get name) (line_read os r fuel rounds sockfd buflen v)
        ≡ (ok tt, v3)
      → session os fuel rounds sockfd buflen
          (suc turns)
          (record { receive_buffer = old; abort = false })
          v
        ≡ session os fuel rounds sockfd buflen turns (holding (typed_get name)) v3
  unfolding session dispatch typed typed_line check_abort is_set first_byte
  first_round turns old name v v3 pos types sent =
      rw (select_ready os fuel v (0 ∷ sockfd ∷ []) (0 ∷ []) none pos types.ready, types.input, sent)
        refl

  second_round :
      (turns : ℕ) (name : FileName) (v v2 v3 v4 : os.World)
      → 0 < fuel
      → sockfd ≢ 0
      → IsText name
      → (os.select (0 ∷ sockfd ∷ []) none v).0 ≡ some (sockfd ∷ [])
      → Wrap.getsockopt_error os sockfd (os.select (0 ∷ sockfd ∷ []) none v).1 ≡ (ok 0, v2)
      → readn_or_exit os fuel sockfd 1 v2 ≡ (ok (b'+' ∷ []), v3)
      → receive_file os fuel sockfd buflen rounds (name ++ (10 ∷ [])) v3 ≡ (ok tt, v4)
      → session os fuel rounds sockfd buflen (suc turns) (holding (typed_get name)) v
        ≡ session os fuel rounds sockfd buflen turns (holding (b'+' ∷ [])) v4
  unfolding session dispatch from_server receive_named_answer answered first_byte
  second_round turns name v v2 v3 v4 pos not_input text ready healthy plus received =
      rw
        (
          select_ready os fuel v (0 ∷ sockfd ∷ []) (sockfd ∷ []) none pos ready,
          input_not_set sockfd not_input,
          socket_set sockfd,
          healthy,
          copy_name-typed_get name text,
          plus,
          received,
        )
        refl

  -- The file for the typed name is saved, two rounds later.
  pub typing-saves :
      (name : FileName) (f : File) (v : os.World)
      → Idle os r fuel sockfd buflen rounds v
      → sockfd ≢ 0
      → IsWord name
      → IsText name
      → 0 < length name
      → length name < filename_len
      → 13 + length f.content < int_limit
      → length f.content < rounds
      → Types os r fuel rounds sockfd buflen (typed_get name) v
      → Comes os r fuel rounds sockfd buflen
          (whole_answer os r fuel sockfd buflen rounds f)
          (requested os r fuel rounds sockfd buflen name v)
      → (v' : os.World) × ((turns : ℕ) (old : Option (List ℕ))
          → session os fuel rounds sockfd buflen
              (suc (suc turns))
              (record { receive_buffer = old; abort = false })
              v
            ≡ session os fuel rounds sockfd buflen turns (holding (b'+' ∷ [])) v')
        × (r.view (requested os r fuel rounds sockfd buflen name v)
            ≡ emit sockfd (get_line name) (r.view v))
        × Saved name f.content (r.view v) (r.view v')
        × Idle os r fuel sockfd buflen rounds v'
  typing-saves [] f v idle not_input word text not_empty short range enough_rounds types comes =
      absurd (omega arith)
  typing-saves (c ∷ cs) f v idle not_input word text not_empty short range enough_rounds types
        comes =
      let name = c ∷ cs in
      let input = line_read os r fuel rounds sockfd buflen v in
      let v2 =
        woken os r fuel rounds sockfd buflen (requested os r fuel rounds sockfd buflen name v) in
      let (v1, sent, moved1, calm1) =
        send_get-Gave os r fuel sockfd b'G' c (b'E' ∷ b'T' ∷ []) cs input get_word-IsWord word
          get_word-IsText text (omega (arith, types.whole, length-append name (10 ∷ [])))
          (omega (arith, types.calm, idle.enough)) in
      let at : requested os r fuel rounds sockfd buflen name v ≡ v1 =
        ap (λ (t : Result (Unit {0}) × os.World). t.1) sent in
      let req = requested os r fuel rounds sockfd buflen name v in
      let answer = whole_answer os r fuel sockfd buflen rounds f in
      let (w2, healthy, same2, calm2) = getsockopt_error-Reaches os r sockfd v2 in
      let moved2 : r.view w2 ≡ arrive sockfd answer (emit sockfd (get_line name) (r.view v)) =
        same2
        ∙ comes.heard
        ∙ ap (arrive sockfd answer)
            (ap r.view at ∙ moved1 ∙ ap (emit sockfd (get_line name)) types.same) in
      let none_open2 =
        subst NoneOpen (sym moved2)
          (heard-NoneOpen sockfd (get_line name) answer (r.view v) idle.none_open) in
      let told : Told os r fuel sockfd buflen rounds f w2 = record {
        come =
            ap (λ t. t.incoming sockfd) (same2 ∙ comes.heard)
            ∙ incoming-arrive sockfd answer (r.view req)
            ∙ ap (λ t. (r.view t).incoming sockfd ++ answer) at
            ∙ ap (λ t. t.incoming sockfd ++ answer) moved1
            ∙ ap (λ t. t ++ answer)
                (incoming-emit sockfd sockfd (get_line name) (r.view input)
                  ∙ ap (λ t. t.incoming sockfd) types.same
                  ∙ idle.read_up);
        enough = omega (arith, types.calm, comes.calm, ap r.patience at, idle.enough);
        range = omega (arith, range);
        large = idle.large;
        enough_rounds = enough_rounds;
        none_open = none_open2;
      } in
      let (v3, v4, plus, received, found, none_open, read, calm) =
        answer-saves os r fuel sockfd buflen rounds name 10 f w2 told in
      (
        v4,
        λ turns old.
            first_round (suc turns) old name v req (omega (arith, idle.enough)) types
              (sent ∙ ap (λ t. (ok tt, t)) (sym at))
            ∙ second_round turns name req w2 v3 v4 (omega (arith, idle.enough)) not_input text
                comes.ready healthy plus received,
        ap r.view at ∙ moved1 ∙ ap (emit sockfd (get_line name)) types.same,
        Saved-from name f.content (r.view v) (r.view w2) (r.view v4)
            (λ other.
              ap (held other) moved2
              ∙ held-heard sockfd (get_line name) answer other (r.view v) idle.none_open)
            found,
        record {
          none_open = none_open;
          read_up = read;
          enough = omega (arith, types.calm, comes.calm, ap r.patience at, idle.enough);
          large = idle.large;
        },
      )
