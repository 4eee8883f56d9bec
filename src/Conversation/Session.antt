-- ===== src/Conversation/Session.antt =====
-- The whole conversation of the client of lab3/es2 with the server of lab3/es3.
use dp.Base.{ℕ, suc, ◌≡◌, false, List, [], ◌∷◌}
use dp.Os.Calls.{Fd, FileName, Os}
use dp.Os.Io.{ok}
use dp.Os.Net.{File, emit}
use dp.Os.Net.Held.{Saved}
use dp.Os.Reliable.{Reliable}
use dp.FileServer.Service.{service_loop}
use dp.FileClient.Commands.{quit_command}
use dp.FileClient.Commands.Laws.{get_line}
use dp.Conversation.{Carries}
use dp.Conversation.Batch.{turn}
use dp.Conversation.Typed.{requested, two_rounds}

module _ (server : Os) (rs : Reliable server) (fuel : ℕ) (connfd : Fd) (buflen rounds : ℕ)
    (deliver : List ℕ → server.World → server.World)
    (net : Carries server rs fuel connfd buflen rounds deliver) (client : Os) (rc : Reliable client)
    (fuel' : ℕ) (sockfd : Fd) (buflen' rounds' : ℕ) (files : FileName → File) where
  abbrev next : FileName → server.World → server.World
  next = turn server rs fuel connfd buflen rounds deliver net

  abbrev asked : FileName → client.World → client.World
  asked = requested client rc fuel' rounds' sockfd buflen'

  abbrev later : client.World → client.World
  later = two_rounds client rc fuel' rounds' sockfd buflen'

  -- The state of the client when all the answers have come.
  abbrev pub last : List FileName → client.World → client.World
  last [] v = v
  last (name ∷ names) v = last names (later v)

  -- For every name: the client has written the request that the server is handed, the server has
  -- answered and waits for the next request, and the client has saved the file under the name, and
  -- changed no other one. At the end the server, handed QUIT, leaves its loop
  -- with the connection closed.
  abbrev pub Served : List FileName → client.World → server.World → Type 0
  Served [] v w =
      (requests : ℕ)
      → (w' : server.World) × (service_loop server fuel connfd buflen rounds (suc requests)
            (deliver quit_command w)
          ≡ (ok tt, w'))
        × ((rs.view w').is_open connfd ≡ false)
  Served (name ∷ names) v w =
      (rc.view (asked name v) ≡ emit sockfd (get_line name) (rc.view v))
      × ((requests : ℕ)
          → service_loop server fuel connfd buflen rounds (suc requests) (deliver (get_line name) w)
            ≡ service_loop server fuel connfd buflen rounds requests (next name w))
      × Saved name (files name).content (rc.view v) (rc.view (later v))
      × Served names (later v) (next name w)
