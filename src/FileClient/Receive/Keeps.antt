-- ===== src/FileClient/Receive/Keeps.antt =====
-- `receive_file` leaves all other files alone.
use dp.Base.{
  ℕ, subst, ◌+◌, ◌≤◌, ◌<◌, ◌≡◌, sym, ap, ap₂, ◌∙◌, List, [], ◌∷◌, ◌++◌, length, if◌then◌else◌,
}
use dp.Base.Words.{u32_mod}
use dp.Os.Calls.{Fd, FileName, Stat, Os}
use dp.Os.Io.{ok}
use dp.Os.Net.{consume, emit, created, shut, held, same_name}
use dp.Os.Net.Laws.{held-consume, written-consume}
use dp.Os.Net.Held.{Saved, NoneOpen, over, held-saved, saved-NoneOpen, NoneOpen-same}
use dp.Os.Reliable.{Reliable}
use dp.FileClient.Receive.{receive_file}
use dp.FileClient.Receive.Saved.{answer_after_plus, receive_file_run}

module _ (os : Os) (r : Reliable os) (fuel : ℕ) (sockfd : Fd) (buflen : ℕ) where
  module _ (st : Stat) (bs : List ℕ) (w : os.World)
      (answer : (r.view w).incoming sockfd ≡ answer_after_plus st bs)
      (enough : 4 + r.patience w < fuel) (rounds : ℕ) (name : FileName) (c : ℕ)
      (range : st.st_size < u32_mod) where
    -- The other files are as they were, if none was open for writing, and then none is.
    pub receive_file_keeps :
        length bs ≡ st.st_size
        → 0 < buflen
        → st.st_size < rounds
        → NoneOpen (r.view w)
        → (w' : os.World) × (receive_file os fuel sockfd buflen rounds (name ++ (c ∷ [])) w
            ≡ (ok tt, w'))
          × Saved name bs (r.view w) (r.view w')
          × NoneOpen (r.view w')
          × ((r.view w').incoming sockfd ≡ [])
          × (r.patience w' ≤ r.patience w)
    receive_file_keeps whole large h none_open =
        let (fd, w', unused, run, result, found, closed, read, calm, streams) =
          receive_file_run os r fuel sockfd buflen st bs w answer enough rounds name c range whole
            large h in
        let s = consume sockfd 12 (r.view w) in
        let none_open' : NoneOpen s =
          NoneOpen-same (r.view w) s (written-consume sockfd 12 (r.view w)) none_open in
        let at =
          streams
          ∙ ap (λ old. shut fd (emit fd bs (consume sockfd st.st_size (created fd name old s))))
              (sym (held-consume sockfd 12 name (r.view w))) in
        (
          w',
          run,
          λ other.
              ap (held other) at
              ∙ held-saved fd sockfd st.st_size name bs s other none_open'
              ∙ ap₂ (λ x y. if same_name other name then over bs x else y)
                  (held-consume sockfd 12 name (r.view w))
                  (held-consume sockfd 12 other (r.view w)),
          subst NoneOpen (sym at) (saved-NoneOpen fd sockfd st.st_size name bs s none_open'),
          read,
          calm,
        )
