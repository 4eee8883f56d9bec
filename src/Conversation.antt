-- ===== src/Conversation.antt =====
-- A file client and the server of lab3/es3 on the two ends of one connection: the client of
-- lab2/lab2.3/source/client1, whose turns stand here and in Asking, or that of lab3/es2, in Typed.
-- Each runs on a machine of its own; the network carries what the client wrote to the server, and
-- what the server wrote to the client, while the other end waits in `select`.
pub mod Serving
pub mod Session
pub mod Asking
pub mod Batch
pub mod Ending
pub mod Typed
pub mod Typing
mod Bench
mod Shelf
mod Talks
mod Runs
use dp.Base.{ℕ, ◌+◌, ◌%◌, ◌≤◌, ◌<◌, ◌≡◌, ◌⊎◌, true, false, some, List, [], ◌∷◌, ◌++◌, length, drop}
use dp.Base.Scan.{IsWord, IsText}
use dp.Os.Calls.{Fd, FileName, Os}
use dp.Os.Io.{pure}
use dp.Os.Net.{Net, File, arrive, same_name}
use dp.Os.Reliable.{Reliable, OnePiece}
use dp.Sockwrap.Exact.{writen}
use dp.FileServer.Defs.{filename_len}
use dp.FileServer.Service.{service_loop}
use dp.FileServer.Service.Rounds.{Serves}
use dp.FileClient.Commands.Laws.{get_line}
use dp.FileClient.Batch.{ask, quit_name}

-- A name that is one word without NUL, fits the arrays of the server and is not the one that stands
-- for QUIT; the server has the file, and the last piece of the file is empty or longer than 13 bytes.
pub record Wanted (buflen : ℕ) (s : Net) (name : FileName) (f : File) : Type 0 where
  pub word : IsWord name
  pub text : IsText name
  pub not_empty : 0 < length name
  pub short : length name < filename_len
  pub fits : 6 + length name < buflen
  pub no_quit : same_name name quit_name ≡ false
  pub found : s.disk name ≡ some f
  pub whole : (length f.content % buflen ≡ 0) ⊎ (13 < length f.content % buflen)

module _ (server : Os) (rs : Reliable server) (fuel : ℕ) (connfd : Fd) (buflen rounds : ℕ)
    (deliver : List ℕ → server.World → server.World) where
  -- The network hands a request to the server whole: one read takes it.
  pub record Carries : Type 0 where
    pub arrives :
        (bs : List ℕ) (w : server.World) → rs.view (deliver bs w) ≡ arrive connfd bs (rs.view w)
    pub calm : (bs : List ℕ) (w : server.World) → rs.patience (deliver bs w) ≤ rs.patience w
    pub one_piece : OnePiece server rs connfd

  -- The server waits for a request, on an open connection.
  pub record Listening (w : server.World) : Type 0 where
    pub serves : Serves server rs fuel connfd buflen rounds w
    pub quiet : (rs.view w).incoming connfd ≡ []
    pub in_use : (rs.view w).is_open connfd ≡ true

  -- The state of the server when it has served the request for `name` and waits again.
  abbrev pub server_turn : FileName → server.World → server.World
  server_turn name w =
      (service_loop server fuel connfd buflen rounds 1 (deliver (get_line name) w)).1

  -- What it has written in that round.
  abbrev pub reply : FileName → server.World → List ℕ
  reply name w =
      drop (length ((rs.view w).sent connfd)) ((rs.view (server_turn name w)).sent connfd)

module _ (client : Os) (rc : Reliable client) (fuel : ℕ) (sockfd : Fd) (buflen rounds : ℕ) where
  -- The client has written its request.
  abbrev pub asked : FileName → client.World → client.World
  asked name v = (writen client fuel sockfd (get_line name) v).1

  -- Its `select` has returned.
  abbrev pub waited : FileName → client.World → client.World
  waited name v = (client.select (sockfd ∷ []) (some 10) (asked name v)).1

  -- The state of the client when it has dealt with the answer.
  abbrev pub client_turn : FileName → client.World → client.World
  client_turn name v =
      (ask client fuel sockfd buflen rounds (pure tt) name (some (get_line name)) v).1

  -- The state of the client after all its requests.
  abbrev pub client_end : List FileName → client.World → client.World
  client_end [] v = v
  client_end (name ∷ names) v = client_end names (client_turn name v)

  -- While the client waits, the bytes `bs` come, and nothing else happens.
  pub record Hears (name : FileName) (bs : List ℕ) (v : client.World) : Type 0 where
    pub ready : (client.select (sockfd ∷ []) (some 10) (asked name v)).0 ≡ some (sockfd ∷ [])
    pub heard : rc.view (waited name v) ≡ arrive sockfd bs (rc.view (asked name v))
    pub calm : rc.patience (waited name v) ≤ rc.patience (asked name v)

  module _ {S : Type 0} (turn : FileName → S → S) (reply : FileName → S → List ℕ) where
    -- The conversation with a server that answers a request for a name with `reply`, and goes on in
    -- the state `turn`: whenever the client waits, what comes is the answer to its last request.
    abbrev pub Talk : List FileName → client.World → S → Type 0
    Talk [] v w = Unit
    Talk (name ∷ names) v w =
        Hears name (reply name w) v × Talk names (client_turn name v) (turn name w)
