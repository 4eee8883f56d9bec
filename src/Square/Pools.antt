-- ===== src/Square/Pools.antt =====
-- The pool of processes on a machine on which the children never end.
use dp.Base.{ℕ, suc, none, some, []}
use dp.Os.Io.{pure}
use dp.Os.Processes.{Processes}
use dp.Square.Tcp.Pool.{children, pool, Pooled, pool-Pooled}

-- The state is the number of the last process.
abbrev endless : Processes ℕ
endless = record {
  fork = λ w. (some (suc w), suc w);
  waitpid = λ pid w. none;
  ignore_children = λ w. (tt, w);
}

pool-Pooled_example : Pooled endless (pure tt) children [] 7 (pool endless (pure tt) children [] 7)
pool-Pooled_example = pool-Pooled endless (pure tt) 7
