-- ===== src/Base/Words.antt =====
-- The four bytes of a 32-bit word in network order: what `htonl` and `memcpy` put on the wire, and
-- what `ntohl` reads back from four received bytes.
use Prim.Native.Nat.{ℕ, ◌+◌, ◌*◌, ◌/◌, ◌%◌, ◌^◌, ◌<◌}
use mathlib.Core.Path.{◌≡◌}
use mathlib.Core.List.{List, [], ◌∷◌}
use native.Mathlib.Omega.{arith}

abbrev pub u32_mod : ℕ
u32_mod = 2 ^ 32

-- `htonl`, then the four bytes in the order of memory.
unfoldable pub htonl_bytes : ℕ → List ℕ
htonl_bytes x = (x / 2 ^ 24 % 256) ∷ (x / 2 ^ 16 % 256) ∷ (x / 2 ^ 8 % 256) ∷ (x % 256) ∷ []

-- The host value of four received bytes; fewer bytes leave the rest of the zeroed variable.
unfoldable pub ntohl_bytes : List ℕ → ℕ
ntohl_bytes [] = 0
ntohl_bytes (a ∷ []) = a * 2 ^ 24
ntohl_bytes (a ∷ b ∷ []) = a * 2 ^ 24 + b * 2 ^ 16
ntohl_bytes (a ∷ b ∷ c ∷ []) = a * 2 ^ 24 + b * 2 ^ 16 + c * 2 ^ 8
ntohl_bytes (a ∷ b ∷ c ∷ d ∷ _) = a * 2 ^ 24 + b * 2 ^ 16 + c * 2 ^ 8 + d

-- What one side writes is what the other side reads.
pub ntohl-htonl : (x : ℕ) → x < 2 ^ 32 → ntohl_bytes (htonl_bytes x) ≡ x
unfolding htonl_bytes ntohl_bytes
ntohl-htonl x h = omega arith
