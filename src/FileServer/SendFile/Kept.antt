-- ===== src/FileServer/SendFile/Kept.antt =====
-- How much of a file the loop of `send_file` sends, in closed form.
use dp.Base.{ℕ, ◌+◌, ◌-◌, ◌%◌, ◌≤◌, ◌<◌, ◌≡◌, ◌⊎◌, ◌↔◌, arith, leb, min, if◌then◌else◌}
use native.Mathlib.Nat.{mod-eq_of_lt, zero-mod}
use native.Mathlib.Decide.{dec_lt}

-- The loop counts the 13 bytes of the header as bytes of the file, so a last piece of up to 13 bytes
-- is left out.
unfoldable pub kept : ℕ → ℕ → ℕ
kept left buflen = if leb (left % buflen) 13 then left - left % buflen else left

small : (left buflen : ℕ) → left ≤ 13 → 13 < buflen → left < buflen
small left buflen h hb = omega arith

pub kept_short : (left buflen : ℕ) → left ≤ 13 → 13 < buflen → kept left buflen ≡ 0
unfolding kept
kept_short left buflen h hb = ground (arith, mod-eq_of_lt (small left buflen h hb))

mod-le : (m n : ℕ) → m % n ≤ m
mod-le m n = omega arith

mod_minus : (left buflen : ℕ) → buflen ≤ left → (left - buflen) % buflen ≡ left % buflen
mod_minus left buflen h = grind arith

last_step : (left buflen : ℕ) → 13 < left → left < buflen → left + kept 0 buflen ≡ kept left buflen
unfolding kept
last_step left buflen h hb = ground (arith, mod-eq_of_lt hb, zero-mod buflen)

more_step :
    (left buflen : ℕ) → buflen ≤ left → buflen + kept (left - buflen) buflen ≡ kept left buflen
unfolding kept
more_step left buflen h = ground (arith, mod_minus left buflen h, mod-le (left - buflen) buflen)

-- One more round of the loop.
pub kept_step :
    (left buflen k : ℕ)
    → 13 < left
    → 13 < buflen
    → k ≡ min buflen left
    → k + kept (left - k) buflen ≡ kept left buflen
kept_step left buflen k h hb e = elim (dec_lt left buflen) [
  | yes p ↦
      let e1 : k ≡ left = omega arith in
      let e2 : left - left ≡ 0 = omega arith in rw (e1, e2) (last_step left buflen h p)
  | no p ↦ let e1 : k ≡ buflen = omega arith in rw e1 (more_step left buflen (omega arith))
]

-- The whole file is sent just if its last piece is empty or longer than the header.
pub kept-eq_iff :
    (size buflen : ℕ)
    → 13 < buflen
    → (kept size buflen ≡ size) ↔ ((size % buflen ≡ 0) ⊎ (13 < size % buflen))
unfolding kept
kept-eq_iff size buflen h = ground (arith, mod-le size buflen)

pub kept_less : (size buflen : ℕ) → 0 < size % buflen → size % buflen ≤ 13 → kept size buflen < size
unfolding kept
kept_less size buflen h h' = ground (arith, mod-le size buflen)
