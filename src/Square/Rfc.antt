-- ===== src/Square/Rfc.antt =====
-- A codec for the types of types.xdr as RFC 4506 describes it, on which everything can be run: it
-- keeps the laws of `Xdr`.
pub mod RoundTrip
pub mod Range
pub mod Laws
use dp.Base.{
  ℕ, zero, suc, ◌+◌, ◌-◌, ◌*◌, ◌/◌, ◌%◌, ◌^◌, Option, none, some, List, [], ◌∷◌, ◌++◌, length, leb,
  ltb, if◌then◌else◌,
}
use dp.Base.Int.{ℤ, pos, negsuc, hyper_limit}
use dp.Base.Words.{u32_mod, htonl_bytes, ntohl_bytes}
use dp.Square.Xdr.{HyperCodec, SequenceCodec}

abbrev pub u64_mod : ℕ
u64_mod = 2 ^ 64

-- Two's complement
abbrev pub to_word : ℤ → ℕ
to_word (pos n) = n
to_word (negsuc n) = u64_mod - 1 - n

unfoldable pub of_word : ℕ → ℤ
of_word x = if ltb x hyper_limit then pos x else negsuc (u64_mod - 1 - x)

unfoldable pub put_hyper : ℤ → List ℕ
put_hyper v = htonl_bytes (to_word v / u32_mod) ++ htonl_bytes (to_word v % u32_mod)

-- Four bytes of a stream, and the rest of it.
unfoldable pub get_u32 : List ℕ → Option (ℕ × List ℕ)
get_u32 [] = none
get_u32 (a ∷ []) = none
get_u32 (a ∷ b ∷ []) = none
get_u32 (a ∷ b ∷ c ∷ []) = none
get_u32 (a ∷ b ∷ c ∷ d ∷ rest) = some (ntohl_bytes (a ∷ b ∷ c ∷ d ∷ []) % u32_mod, rest)

unfoldable pub join_words : ℕ → Option (ℕ × List ℕ) → Option (ℤ × List ℕ)
unfolding of_word
join_words high none = none
join_words high (some (low, rest)) = some (of_word (high * u32_mod + low), rest)

unfoldable pub after_high : Option (ℕ × List ℕ) → Option (ℤ × List ℕ)
unfolding join_words get_u32
after_high none = none
after_high (some (high, rest)) = join_words high (get_u32 rest)

unfoldable pub get_hyper : List ℕ → Option (ℤ × List ℕ)
unfolding after_high get_u32
get_hyper bs = after_high (get_u32 bs)

unfoldable pub put_all : List ℤ → List ℕ
unfolding put_hyper
put_all [] = []
put_all (v ∷ vs) = put_hyper v ++ put_all vs

unfoldable pub cons_got : ℤ → Option (List ℤ × List ℕ) → Option (List ℤ × List ℕ)
cons_got v none = none
cons_got v (some (vs, rest)) = some (v ∷ vs, rest)

unfoldable pub get_next :
    (List ℕ → Option (List ℤ × List ℕ)) → Option (ℤ × List ℕ) → Option (List ℤ × List ℕ)
unfolding cons_got
get_next again none = none
get_next again (some (v, rest)) = cons_got v (again rest)

unfoldable pub get_all : ℕ → List ℕ → Option (List ℤ × List ℕ)
unfolding get_next get_hyper
get_all zero bs = some ([], bs)
get_all (suc n) bs = get_next (get_all n) (get_hyper bs)

unfoldable pub put_sequence : List ℤ → List ℕ
unfolding put_all
put_sequence vs = htonl_bytes (length vs) ++ put_all vs

unfoldable pub get_elements : ℕ → Option (ℕ × List ℕ) → Option (List ℤ × List ℕ)
unfolding get_all
get_elements limit none = none
get_elements limit (some (n, rest)) = if leb n limit then get_all n rest else none

unfoldable pub get_sequence : ℕ → List ℕ → Option (List ℤ × List ℕ)
unfolding get_elements get_u32
get_sequence limit bs = get_elements limit (get_u32 bs)

-- Encoding into a memory stream.
unfoldable pub in_room : ℕ → List ℕ → Option (List ℕ)
in_room room bs = if leb (length bs) room then some bs else none

unfoldable pub first_of {ℓ} : {A : Type ℓ} → Option (A × List ℕ) → Option A
first_of none = none
first_of (some (a, rest)) = some a

unfoldable pub pair_with : {A : Type 0} → A → Option A → Option (A × A)
pair_with a none = none
pair_with a (some b) = some (a, b)

unfoldable pub second_hyper : Option (ℤ × List ℕ) → Option (ℤ × ℤ)
unfolding pair_with first_of get_hyper
second_hyper none = none
second_hyper (some (v, rest)) = pair_with v (first_of (get_hyper rest))

unfoldable pub second_sequence : ℕ → Option (List ℤ × List ℕ) → Option (List ℤ × List ℤ)
unfolding pair_with first_of get_sequence
second_sequence limit none = none
second_sequence limit (some (vs, rest)) = pair_with vs (first_of (get_sequence limit rest))

abbrev pub rfc_hyper : HyperCodec
rfc_hyper = record {
  encode_hyper = λ room v. in_room room (put_hyper v);
  decode_hyper = λ bs. first_of (get_hyper bs);
  encode_pair = λ room v u. in_room room (put_hyper v ++ put_hyper u);
  decode_pair = λ bs. second_hyper (get_hyper bs);
}

abbrev pub rfc_sequence : ℕ → SequenceCodec
rfc_sequence limit = record {
  encode_sequence = λ room vs. in_room room (put_sequence vs);
  decode_sequence = λ bs. first_of (get_sequence limit bs);
  encode_response = λ room vs us. in_room room (put_sequence vs ++ put_sequence us);
  decode_response = λ bs. second_sequence limit (get_sequence limit bs);
}
