-- ===== src/Os/Io.antt =====
-- A C function that makes system calls, over an unknown state `W` of the machine. It returns a
-- value, ends the process by `exit`, leaves what C defines (a write past the end of an array, an
-- indeterminate value), or uses up the rounds that its loop was given.
use dp.Base.{ℕ}

pub data Result (A : Type 0) : Type 0 where
  ok : A → Result A
  exit : ℕ → Result A
  undefined : Result A
  out_of_fuel : Result A

abbrev pub Io : Type 0 → Type 0 → Type 0
Io W A = W → Result A × W

module _ {W A : Type 0} where
  abbrev pub pure : A → Io W A
  pure a w = (ok a, w)

  abbrev pub quit : ℕ → Io W A
  quit status w = (exit status, w)

  abbrev pub stop : Result A → Io W A
  stop r w = (r, w)

  -- A system call: it always comes back.
  abbrev pub call : (W → A × W) → Io W A
  call f w = (ok (f w).0, (f w).1)

  abbrev pub gets : (W → A) → Io W A
  gets f w = (ok (f w), w)

module _ {W A B : Type 0} where
  abbrev pub and_then : Result A → (A → Io W B) → Io W B
  and_then (ok a) k w = k a w
  and_then (exit status) k w = (exit status, w)
  and_then undefined k w = (undefined, w)
  and_then out_of_fuel k w = (out_of_fuel, w)

  infixl 5 ◌>>=◌ ◌>>◌
  abbrev pub ◌>>=◌ : Io W A → (A → Io W B) → Io W B
  ◌>>=◌ m k w = and_then (m w).0 k (m w).1

  abbrev pub ◌>>◌ : Io W A → Io W B → Io W B
  m >> k = m >>= λ _. k
