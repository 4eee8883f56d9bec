-- ===== src/FileClient/Mains.antt =====
-- The `main` functions of the two file clients: lab3/es2/client.c, whose user types the commands, and
-- lab2/lab2.3/source/client1/client1_main.c, which takes the names from its arguments.
use dp.Base.{ℕ, none, some, List, [], ◌∷◌}
use dp.Os.Calls.{Os}
use dp.Os.Io.{Io, undefined, quit, stop, ◌>>=◌}
use dp.Sockwrap.Setup.{Network}
use dp.Connection.{init_connection_tcp}
use dp.FileClient.Session.{main}
use dp.FileClient.Batch.{batch_main}

-- The arguments are those behind the name of the program; a null pointer follows them.
module _ (os : Os) (net : Network os.World) (fuel rounds : ℕ) where
  -- The arguments are not counted: without any, `argv[2]` lies behind the null pointer.
  unfoldable pub client_main : ℕ → List (List ℕ) → Io os.World ℕ
  unfolding init_connection_tcp main
  client_main turns [] = stop undefined
  client_main turns (address ∷ []) =
      init_connection_tcp net (some address) none >>= main os fuel rounds turns
  client_main turns (address ∷ port ∷ more) =
      init_connection_tcp net (some address) (some port) >>= main os fuel rounds turns

  unfoldable pub client1_main : List (List ℕ) → Io os.World ℕ
  unfolding init_connection_tcp batch_main
  client1_main [] = quit 1
  client1_main (address ∷ []) =
      init_connection_tcp net (some address) none >>= λ sockfd. batch_main os fuel rounds sockfd []
  client1_main (address ∷ port ∷ names) =
      init_connection_tcp net (some address) (some port) >>= λ sockfd.
      batch_main os fuel rounds sockfd names
