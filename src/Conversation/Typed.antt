-- ===== src/Conversation/Typed.antt =====
-- The client of lab3/es2 in a conversation: its user types a request, the answer comes, and so on.
use dp.Base.{ℕ, suc, ◌-◌, ◌≤◌, ◌≡◌, some, none, List, [], ◌∷◌, ◌++◌, length, ◌<◌}
use dp.Os.Calls.{Fd, FileName, Os}
use dp.Os.Net.{arrive}
use dp.Os.Reliable.{Reliable}
use dp.FileServer.Defs.{get_word}
use dp.FileClient.Commands.{buf_len, send_get}
use dp.FileClient.Session.{start, session}

-- The line that is typed for a file.
abbrev pub typed_get : FileName → List ℕ
typed_get name = get_word ++ (32 ∷ (name ++ (10 ∷ [])))

abbrev pub typed_quit : List ℕ
typed_quit = b'Q' ∷ 10 ∷ []

module _ (client : Os) (rc : Reliable client) (fuel rounds : ℕ) (sockfd : Fd) (buflen : ℕ) where
  -- `select` has returned for the standard input, and the line is read.
  abbrev pub woken : client.World → client.World
  woken v = (client.select (0 ∷ sockfd ∷ []) none v).1

  abbrev pub line_read : client.World → client.World
  line_read v = (client.fgets (buf_len - 1) (woken v)).1

  -- The user types a line that `fgets` stores whole, with a NUL, and nothing else happens.
  pub record Types (line : List ℕ) (v : client.World) : Type 0 where
    pub ready : (client.select (0 ∷ sockfd ∷ []) none v).0 ≡ some (0 ∷ [])
    pub input : (client.fgets (buf_len - 1) (woken v)).0 ≡ some line
    pub whole : length line < buf_len - 1
    pub same : rc.view (line_read v) ≡ rc.view v
    pub calm : rc.patience (line_read v) ≤ rc.patience v

  -- The request for what was typed is written.
  abbrev pub requested : FileName → client.World → client.World
  requested name v = (send_get client fuel sockfd (typed_get name) (line_read v)).1

  -- The bytes `bs` come to a client that waits, and nothing else happens.
  pub record Comes (bs : List ℕ) (v : client.World) : Type 0 where
    pub ready : (client.select (0 ∷ sockfd ∷ []) none v).0 ≡ some (sockfd ∷ [])
    pub heard : rc.view (woken v) ≡ arrive sockfd bs (rc.view v)
    pub calm : rc.patience (woken v) ≤ rc.patience v

  -- The state of the client after two rounds: a typed request and its answer.
  abbrev pub two_rounds : client.World → client.World
  two_rounds v = (session client fuel rounds sockfd buflen 2 start v).1

  module _ {S : Type 0} (turn : FileName → S → S) (reply : FileName → S → List ℕ) where
    -- The user asks for one name after another and then types `Q`; what comes in between is the
    -- server's answer to each request.
    abbrev pub Dialogue : List FileName → client.World → S → Type 0
    Dialogue [] v w = Types typed_quit v
    Dialogue (name ∷ names) v w =
        Types (typed_get name) v
        × Comes (reply name w) (requested name v)
        × Dialogue names (two_rounds v) (turn name w)

-- Two rounds for each name, and one for the end.
abbrev pub rounds_for : List FileName → ℕ → ℕ
rounds_for [] turns = suc turns
rounds_for (name ∷ names) turns = suc (suc (rounds_for names turns))
