-- ===== src/FileServer/Main.antt =====
-- `main` of lab3/es3/server.c: the processes that serve one socket.
use dp.Base.{
  ℕ, zero, suc, ◌+◌, ◌-◌, ◌*◌, ◌%◌, ◌^◌, ◌≡◌, refl, sym, ap, ◌∙◌, Bool, true, false, Option, none,
  some, List, [], ◌∷◌, ◌++◌, length, append-nil, append_assoc,
}
use dp.Base.Int.{ℤ, pos, negsuc}
use dp.Os.Calls.{Fd, Os}
use dp.Os.Processes.{Processes, ParentLaws}
use dp.Os.Io.{Io, quit, call, ◌>>=◌}
use dp.Sockwrap.Wrap
use dp.Sockwrap.Setup.{Network}
use dp.Connection.{init_server_tcp}
use dp.FileServer.Defs.{max_buf}
use dp.FileServer.Service.{serve_client}
use dp.FileClient.Session.{at_most}

-- `n_proc * sizeof(pid_t)`, a product of `size_t`
unfoldable pub pids_size : ℤ → ℕ
pids_size (pos n) = n * 4 % 2 ^ 64
pids_size (negsuc n) = (2 ^ 64 - (n + 1) * 4 % 2 ^ 64) % 2 ^ 64

unfoldable pub proc_count : ℤ → ℕ
proc_count (pos n) = n
proc_count (negsuc n) = zero

module _ {W : Type 0} (processes : Processes W) (in_child in_parent : Io W (Unit {0})) where
  -- A failure of `fork` leaves -1 in `pid`, and the loop goes on.
  unfoldable pub after_fork : Io W (Unit {0}) → Option ℕ → Io W (Unit {0})
  after_fork again none = again
  after_fork again (some zero) = in_child
  after_fork again (some (suc pid)) = again

  unfoldable pub start_all : ℕ → Io W (Unit {0})
  unfolding after_fork
  start_all zero w = in_parent w
  start_all (suc n) w = (call processes.fork >>= after_fork (start_all n)) w

-- `atoi` is a parameter, and so are the calls of the network.
module _ (os : Os) (net : Network os.World) (processes : Processes os.World) (atoi : List ℕ → ℤ)
    (fuel rounds requests clients : ℕ) where
  unfoldable pub with_pids : Fd → ℕ → ℕ → Bool → Io os.World (Unit {0})
  unfolding start_all serve_client
  with_pids sockfd buflen n_proc false = quit 2
  with_pids sockfd buflen n_proc true =
      start_all processes (serve_client os fuel rounds requests sockfd (buflen + 5) clients)
        (serve_client os fuel rounds requests sockfd buflen clients) n_proc

  -- The arguments behind the name of the program: exactly two.
  unfoldable pub server_main : List (List ℕ) → Io os.World (Unit {0})
  unfolding init_server_tcp at_most with_pids pids_size proc_count
  server_main [] = quit 1
  server_main (port ∷ []) = quit 1
  server_main (port ∷ n_proc ∷ []) = do
    sockfd ← init_server_tcp net port
    buflen ← Wrap.getsockopt_rcvbuf os sockfd
    call (os.malloc (pids_size (atoi n_proc)))
        >>= with_pids sockfd (at_most max_buf buflen) (proc_count (atoi n_proc))
  server_main (port ∷ n_proc ∷ third ∷ more) = quit 1

module _ {W : Type 0} (processes : Processes W) (laws : ParentLaws processes) where
  -- If no `fork` fails, the first process starts as many children as it was asked for and then serves
  -- clients itself.
  pub start_all-starts :
      (in_child in_parent : Io W (Unit {0})) (n : ℕ) (w : W)
      → (pids : List ℕ) × (w' : W) × (length pids ≡ n)
        × (start_all processes in_child in_parent n w ≡ in_parent w')
        × (laws.started w' ≡ laws.started w ++ pids)
  unfolding start_all after_fork
  start_all-starts in_child in_parent zero w =
      ([], w, refl, refl, sym (append-nil (laws.started w)))
  start_all-starts in_child in_parent (suc n) w =
      let (pid, forked, one) = laws.fork_lem w in
      let (pids, w', count, run, all) =
        start_all-starts in_child in_parent n (processes.fork w).1 in
      (
        suc pid ∷ pids,
        w',
        ap suc count,
        rw forked run,
        all ∙ ap (λ t. t ++ pids) one ∙ append_assoc (laws.started w) (suc pid ∷ []) pids,
      )
