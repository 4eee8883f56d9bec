-- ===== src/Os/Processes.antt =====
-- The calls of the servers that start processes, over a state `W` of the machine.
use dp.Base.{ℕ, suc, ◌≡◌, Option, some, List, [], ◌∷◌, ◌++◌}

pub record Processes (W : Type 0) : Type 0 where
  -- 0 in the child, the number of the child in its parent, `none` if there is no child
  pub fork : W → Option ℕ × W
  -- the end of a child is waited for; `none` if it never ends, and the call does not return. What is
  -- reported of the child is not looked at.
  pub waitpid : ℕ → W → Option W
  -- `signal(SIGCHLD, SIG_IGN)`
  pub ignore_children : W → Unit {0} × W

-- What a parent sees when no `fork` fails: the numbers of the children it has started, in order.
pub record ParentLaws {W : Type 0} (p : Processes W) : Type 0 where
  pub started : W → List ℕ
  pub fork_lem :
      (w : W)
      → (pid : ℕ) × ((p.fork w).0 ≡ some (suc pid))
        × (started (p.fork w).1 ≡ started w ++ (suc pid ∷ []))
