-- ===== src/Square/Rfc/RoundTrip.antt =====
-- What the codec of RFC 4506 writes, it reads back.
use dp.Base.{
  ℕ, ◌+◌, ◌-◌, ◌*◌, ◌/◌, ◌%◌, ◌≤◌, ◌<◌, ◌≡◌, refl, ap, arith, true, none, some, List, [], ◌∷◌, ◌++◌,
  length, length-append, append_assoc, leb, lt→ltb,
}
use dp.Base.Int.{ℤ, pos, negsuc, hyper_limit, IsHyper, AllHyper}
use dp.Base.Words.{u32_mod, htonl_bytes, ntohl_bytes}
use dp.Square.Rfc.{
  u64_mod, to_word, of_word, put_hyper, get_u32, join_words, after_high, get_hyper, put_all,
  cons_got, get_next, get_all, put_sequence, get_elements, get_sequence, in_room,
}

pub get_u32-htonl :
    (x : ℕ) (rest : List ℕ) → x < u32_mod → get_u32 (htonl_bytes x ++ rest) ≡ some (x, rest)
unfolding get_u32 htonl_bytes ntohl_bytes
get_u32-htonl x rest h = ap (λ t. some (t, rest)) (omega arith)

pub of_word-to_word :
    (v : ℤ) → IsHyper v → of_word (to_word v / u32_mod * u32_mod + to_word v % u32_mod) ≡ v
unfolding of_word
of_word-to_word (pos n) h =
    let e : n / u32_mod * u32_mod + n % u32_mod ≡ n = omega arith in
    rw (e, lt→ltb n hyper_limit h) refl
of_word-to_word (negsuc n) h =
    let x = u64_mod - 1 - n in
    let e : x / u32_mod * u32_mod + x % u32_mod ≡ x = omega arith in rw e (ground arith)

pub get_hyper-put_hyper :
    (v : ℤ) (rest : List ℕ) → IsHyper v → get_hyper (put_hyper v ++ rest) ≡ some (v, rest)
unfolding get_hyper after_high join_words put_hyper
get_hyper-put_hyper v rest h =
    let high = to_word v / u32_mod in
    let low = to_word v % u32_mod in
    rw
      (
        append_assoc (htonl_bytes high) (htonl_bytes low) rest,
        get_u32-htonl high (htonl_bytes low ++ rest) (word_high v h),
        get_u32-htonl low rest (omega arith),
        of_word-to_word v h,
      )
      refl
  where
    word_high : (u : ℤ) → IsHyper u → to_word u / u32_mod < u32_mod
    word_high (pos n) b = omega arith
    word_high (negsuc n) b = omega arith

pub length-put_hyper : (v : ℤ) → length (put_hyper v) ≡ 8
unfolding put_hyper htonl_bytes
length-put_hyper v = refl

pub get_all-put_all :
    (vs : List ℤ) (rest : List ℕ)
    → AllHyper vs
    → get_all (length vs) (put_all vs ++ rest) ≡ some (vs, rest)
unfolding get_all put_all get_next cons_got
get_all-put_all [] rest h = refl
get_all-put_all (v ∷ vs) rest (hv, hvs) =
    rw
      (
        append_assoc (put_hyper v) (put_all vs) rest,
        get_hyper-put_hyper v (put_all vs ++ rest) hv,
        get_all-put_all vs rest hvs,
      )
      refl

pub length-put_all : (vs : List ℤ) → length (put_all vs) ≡ 8 * length vs
unfolding put_all
length-put_all [] = refl
length-put_all (v ∷ vs) =
    omega (arith, length-append (put_hyper v) (put_all vs), length-put_hyper v, length-put_all vs)

pub length-put_sequence : (vs : List ℤ) → length (put_sequence vs) ≡ 4 + 8 * length vs
unfolding put_sequence htonl_bytes
length-put_sequence vs = omega (arith, length-put_all vs)

pub get_sequence-put_sequence :
    (limit : ℕ) (vs : List ℤ) (rest : List ℕ)
    → limit < u32_mod
    → AllHyper vs
    → length vs ≤ limit
    → get_sequence limit (put_sequence vs ++ rest) ≡ some (vs, rest)
unfolding get_sequence get_elements put_sequence
get_sequence-put_sequence limit vs rest small h short =
    let fits : leb (length vs) limit ≡ true = ground arith in
    rw
      (
        append_assoc (htonl_bytes (length vs)) (put_all vs) rest,
        get_u32-htonl (length vs) (put_all vs ++ rest) (omega arith),
        fits,
      )
      (get_all-put_all vs rest h)

pub in_room_fits : (room : ℕ) (bs : List ℕ) → length bs ≤ room → in_room room bs ≡ some bs
unfolding in_room
in_room_fits room bs h = ground arith

pub in_room_full : (room : ℕ) (bs : List ℕ) → room < length bs → in_room room bs ≡ none
unfolding in_room
in_room_full room bs h = ground arith
