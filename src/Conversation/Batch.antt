-- ===== src/Conversation/Batch.antt =====
-- The whole conversation of the client of lab2/lab2.3/source/client1: it is given a list of names, and
-- asks for one after another.
use dp.Base.{ℕ, suc, ◌<◌, ◌≡◌, sym, ap, ◌∙◌, subst, List, [], ◌∷◌, ◌++◌, length, drop, drop-append}
use dp.Os.Calls.{Fd, FileName, Os}
use dp.Os.Io.{Result}
use dp.Os.Net.{Net, File}
use dp.Os.Net.Held.{Saved, Holds}
use dp.Os.Reliable.{Reliable}
use dp.FileServer.SendFile.Sent.{header, stat_of}
use dp.FileServer.Service.{service_loop}
use dp.FileClient.Commands.Laws.{get_line}
use dp.Conversation.{Wanted, Carries, Listening, server_turn, reply, client_turn}
use dp.Conversation.Serving.{turn-Answered}

pub Wanted-disk :
    (buflen : ℕ) (s s' : Net) (name : FileName) (f : File)
    → s'.disk ≡ s.disk
    → Wanted buflen s name f
    → Wanted buflen s' name f
Wanted-disk buflen s s' name f same wanted = record {
  word = wanted.word;
  text = wanted.text;
  not_empty = wanted.not_empty;
  short = wanted.short;
  fits = wanted.fits;
  no_quit = wanted.no_quit;
  found = ap (λ t. t name) same ∙ wanted.found;
  whole = wanted.whole;
}

module _ (server : Os) (rs : Reliable server) (fuel : ℕ) (connfd : Fd) (buflen rounds : ℕ)
    (deliver : List ℕ → server.World → server.World)
    (net : Carries server rs fuel connfd buflen rounds deliver) where
  abbrev pub turn : FileName → server.World → server.World
  turn = server_turn server rs fuel connfd buflen rounds deliver

  abbrev pub answer_to : FileName → server.World → List ℕ
  answer_to = reply server rs fuel connfd buflen rounds deliver

  -- What the server says in answer to a request, and the state in which it goes on.
  pub turn-answers :
      (name : FileName) (f : File) (w : server.World)
      → Listening server rs fuel connfd buflen rounds deliver w
      → Wanted buflen (rs.view w) name f
      → (answer_to name w ≡ header (stat_of f) ++ f.content)
        × ((requests : ℕ)
            → service_loop server fuel connfd buflen rounds
                (suc requests)
                (deliver (get_line name) w)
              ≡ service_loop server fuel connfd buflen rounds requests (turn name w))
        × Listening server rs fuel connfd buflen rounds deliver (turn name w)
        × ((rs.view (turn name w)).disk ≡ (rs.view w).disk)
  unfolding service_loop
  turn-answers name f w listening wanted =
      let (w', answered) =
        turn-Answered server rs fuel connfd buflen rounds deliver net name f w listening wanted in
      let at_w : turn name w ≡ w' =
        ap (λ (t : Result (Unit {0}) × server.World). t.1) (answered.round 0) in
      let before = length ((rs.view w).sent connfd) in
      (
        ap (λ t. drop before ((rs.view t).sent connfd)) at_w
            ∙ ap (drop before) answered.written
            ∙ drop-append ((rs.view w).sent connfd) (header (stat_of f) ++ f.content),
        λ requests.
            answered.round requests
            ∙ ap (service_loop server fuel connfd buflen rounds requests) (sym at_w),
        subst (Listening server rs fuel connfd buflen rounds deliver) (sym at_w) answered.listening,
        ap (λ t. (rs.view t).disk) at_w ∙ answered.same_disk,
      )

  module _ (client : Os) (rc : Reliable client) (fuel' : ℕ) (sockfd : Fd) (buflen' rounds' : ℕ)
      (files : FileName → File) where
    -- Every name is wanted, and the client has rounds enough for its file.
    abbrev pub AllWanted : List FileName → Net → Type 0
    AllWanted [] s = Unit
    AllWanted (name ∷ names) s =
        Wanted buflen s name (files name)
        × (length (files name).content < rounds')
        × AllWanted names s

    abbrev pub client_next : FileName → client.World → client.World
    client_next = client_turn client rc fuel' sockfd buflen' rounds'

    -- For every name: the server has answered and waits for the next request, and the client has
    -- saved the file under the name, and changed no other one.
    abbrev pub Fetched : List FileName → client.World → server.World → Type 0
    Fetched [] v w = Unit
    Fetched (name ∷ names) v w =
        ((requests : ℕ)
          → service_loop server fuel connfd buflen rounds (suc requests) (deliver (get_line name) w)
            ≡ service_loop server fuel connfd buflen rounds requests (turn name w))
        × Saved name (files name).content (rc.view v) (rc.view (client_next name v))
        × Fetched names (client_next name v) (turn name w)

    -- What the files hold at the end of a conversation that began in the other state.
    abbrev pub FilesHeld : List FileName → client.World → client.World → Type 0
    FilesHeld names v v' = Holds (λ name. (files name).content) names (rc.view v) (rc.view v')

    pub AllWanted-disk :
        (names : List FileName) (s s' : Net)
        → s'.disk ≡ s.disk
        → AllWanted names s
        → AllWanted names s'
    AllWanted-disk [] s s' same all = tt
    AllWanted-disk (name ∷ names) s s' same (wanted, enough, all) = (
      Wanted-disk buflen s s' name (files name) same wanted,
      enough,
      AllWanted-disk names s s' same all,
    )
