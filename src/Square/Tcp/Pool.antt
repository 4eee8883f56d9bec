-- ===== src/Square/Tcp/Pool.antt =====
-- `main` of 5-SquareSequencesTCP/server/SquareServer.c: a socket, and a pool of processes that serve
-- it.
use dp.Base.{
  ℕ, zero, suc, ◌≡◌, refl, sym, ap, Option, none, some, List, [], ◌∷◌, ◌++◌, length, append-nil,
  append_assoc, subst, ◌<◌, ◌⊎◌, inl, inr, arith,
}
use dp.Os.Calls.{Os}
use dp.Os.Processes.{Processes}
use dp.Os.Io.{Io, Result, ok, out_of_fuel, pure, quit, call, ◌>>=◌, ◌>>◌}
use dp.Errlib.{err_sys, err_quit}
use dp.Sockwrap.Setup
use dp.Sockwrap.Setup.{Network}
use dp.SumServer.Decimal.{scan_ushort}
use dp.Square.Xdr.{SequenceCodec}
use dp.Square.Udp.{Address, Heap}
use dp.Square.Simple.{af_inet, sockaddr_in_size}
use dp.Square.Client.{Printed}
use dp.Square.Mains.{default_port, port_scanned, client_port, client_host}
use dp.Square.Tcp.{Stdio, child, tcp_client}

-- CHILDREN
abbrev pub children : ℕ
children = 5

-- LISTENQ
abbrev pub listenq : ℕ
listenq = 15

-- Here one argument is enough.
unfoldable pub tcp_port : {W : Type 0} → List (List ℕ) → Io W ℕ
unfolding port_scanned
tcp_port [] = pure default_port
tcp_port (port ∷ more) = port_scanned (scan_ushort port)

module _ {W : Type 0} (processes : Processes W) where
  -- A call that does not return is a run without end.
  unfoldable pub after_waitpid : (W → Result (Unit {0}) × W) → W → Option W → Result (Unit {0}) × W
  after_waitpid next w none = (out_of_fuel, w)
  after_waitpid next w (some w') = next w'

  unfoldable pub wait_all : List ℕ → Io W (Unit {0})
  unfolding after_waitpid
  wait_all [] w = (ok tt, w)
  wait_all (pid ∷ pids) w = after_waitpid (wait_all pids) w (processes.waitpid pid w)

  module _ (serve : Io W (Unit {0})) where
    unfoldable pub after_fork : (ℕ → Io W (Unit {0})) → Option ℕ → Io W (Unit {0})
    after_fork next none = err_sys
    after_fork next (some zero) = serve >> quit 0
    after_fork next (some (suc pid)) = next (suc pid)

    -- The rest of the pool, given the processes that were started.
    unfoldable pub pool : ℕ → List ℕ → Io W (Unit {0})
    unfolding wait_all after_fork
    pool zero pids w = wait_all pids w
    pool (suc k) pids w =
        (call processes.fork >>= after_fork (λ pid. pool k (pids ++ (pid ∷ [])))) w

module _ (os : Os) (net : Network os.World) (any_address : ℕ → Address) where
  unfoldable pub tcp_main :
      Stdio os.World
      → Heap os.World
      → Processes os.World
      → ℕ
      → ℕ
      → List (List ℕ)
      → Io os.World (Unit {0})
  unfolding tcp_port child pool
  tcp_main io heap processes fuel clients args = do
    port ← tcp_port args
    s ← Setup.socket net af_inet 1 0
    Setup.bind net s (any_address port) sockaddr_in_size
    Setup.listen net s listenq
    pool processes (child os io heap fuel s clients) children []

  -- `main` of its client
  module _ (inet_aton : List ℕ → Option (List ℕ)) (default : List ℕ)
      (address : ℕ → List ℕ → Address) (codec : SequenceCodec) (fuel turns : ℕ) where
    unfoldable pub at_host : ℕ → Option (List ℕ) → Io os.World (List Printed)
    unfolding tcp_client
    at_host port none = err_quit
    at_host port (some host) = tcp_client os net codec fuel (address port host) turns

    unfoldable pub tcp_client_main : List (List ℕ) → Io os.World (List Printed)
    unfolding at_host client_port client_host
    tcp_client_main args =
        client_port args >>= λ port. at_host port (client_host inet_aton default args)

module _ {W : Type 0} (processes : Processes W) where
  -- The parent has come from the first state to the second one by starting the children `pids`.
  abbrev pub Started : List ℕ → W → W → Type 0
  Started [] w w' = w' ≡ w
  Started (pid ∷ pids) w w' =
      ((processes.fork w).0 ≡ some pid) × (0 < pid) × Started pids (processes.fork w).1 w'

  -- The children are waited for in order, up to the first one that does not end.
  abbrev pub Waits : List ℕ → W → Result (Unit {0}) × W → Type 0
  Waits [] w run = run ≡ (ok tt, w)
  Waits (pid ∷ pids) w run =
      ((processes.waitpid pid w ≡ none) × (run ≡ (out_of_fuel, w)))
      ⊎ ((w' : W) × (processes.waitpid pid w ≡ some w') × Waits pids w' run)

  wait_all-Waits : (pids : List ℕ) (w : W) → Waits pids w (wait_all processes pids w)
  unfolding wait_all
  wait_all-Waits [] w = refl
  wait_all-Waits (pid ∷ pids) w = chosen (λ u. wait_all-Waits pids u) (processes.waitpid pid w) refl
    where
      chosen :
          ((u : W) → Waits pids u (wait_all processes pids u))
          → (o : Option W) → processes.waitpid pid w ≡ o
          → ((processes.waitpid pid w ≡ none)
              × (after_waitpid processes (wait_all processes pids) w o ≡ (out_of_fuel, w)))
            ⊎ ((w' : W) × (processes.waitpid pid w ≡ some w')
                × Waits pids w' (after_waitpid processes (wait_all processes pids) w o))
      chosen rest none e = inl (e, refl)
      chosen rest (some w') e = inr (w', e, rest w')

  module _ (serve : Io W (Unit {0})) where
    -- What comes of the children `before` and of `count` more: the parent starts them all and waits;
    -- or a `fork` fails, and it ends with an error; or the process is a child, which serves and
    -- never starts or awaits another one.
    abbrev pub Pooled : ℕ → List ℕ → W → Result (Unit {0}) × W → Type 0
    Pooled count before w run =
        (pids : List ℕ) × (w' : W) × Started pids w w'
        × (((length pids ≡ count) × Waits (before ++ pids) w' run)
            ⊎ ((length pids < count)
                × ((processes.fork w').0 ≡ none)
                × (run ≡ err_sys (processes.fork w').1))
            ⊎ ((length pids < count)
                × ((processes.fork w').0 ≡ some 0)
                × (run ≡ (serve >> quit 0) (processes.fork w').1)))

    pool_rest-Pooled :
        (count : ℕ) (before : List ℕ) (w : W)
        → Pooled count before w (pool processes serve count before w)
    unfolding pool
    pool_rest-Pooled zero before w = (
      [],
      w,
      refl,
      inl (
        refl,
        subst (λ pids. Waits pids w (wait_all processes before w)) (sym (append-nil before))
            (wait_all-Waits before w),
      ),
    )
    pool_rest-Pooled (suc count) before w =
        chosen (λ before' u. pool_rest-Pooled count before' u) (processes.fork w).0 refl
      where
        rest : ℕ → Io W (Unit {0})
        rest pid = pool processes serve count (before ++ (pid ∷ []))

        chosen :
            ((before' : List ℕ) (u : W)
              → Pooled count before' u (pool processes serve count before' u))
            → (o : Option ℕ) → (processes.fork w).0 ≡ o
            → Pooled (suc count) before w (after_fork processes serve rest o (processes.fork w).1)
        chosen more none e = ([], w, refl, inr (inl (omega arith, e, refl)))
        chosen more (some zero) e = ([], w, refl, inr (inr (omega arith, e, refl)))
        chosen more (some (suc pid)) e =
            let (pids, w', all, after) = more (before ++ (suc pid ∷ [])) (processes.fork w).1 in
            (
              suc pid ∷ pids,
              w',
              (e, omega arith, all),
              elim after [
                | inl (count_all, waits) ↦ inl (
                  ap suc count_all,
                  subst (λ t. Waits t w' (rest (suc pid) (processes.fork w).1))
                      (append_assoc before (suc pid ∷ []) pids) waits,
                )
                | inr (inl (few, failed, run)) ↦ inr (inl (omega arith, failed, run))
                | inr (inr (few, in_child, run)) ↦ inr (inr (omega arith, in_child, run))
              ],
            )

    -- On every machine, the pool of the server comes to one of three ends. The parent has started
    -- five children and waits for them in the order in which it started them: it returns when each
    -- of them has ended, and it does not return if one of them never ends. Or a `fork` fails before
    -- that, and the parent ends with an error; the children it has started are not waited for. Or
    -- the process is itself a child: it serves, starts and awaits no other one, and if serving
    -- returns it ends with 0.
    pub pool-Pooled : (w : W) → Pooled children [] w (pool processes serve children [] w)
    pool-Pooled w = pool_rest-Pooled children [] w
