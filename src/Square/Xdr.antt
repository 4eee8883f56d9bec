-- ===== src/Square/Xdr.antt =====
-- The XDR library and the code that rpcgen makes of types.xdr, as parameters, and what RFC 4506 says
-- of them. Memory streams only: `room` is the size that the stream was made with.
use dp.Base.{ℕ, ◌+◌, ◌*◌, ◌≤◌, ◌<◌, ◌≡◌, Option, none, some, List, length}
use dp.Base.Int.{ℤ, IsHyper, AllHyper}

-- `xdr_xdrhyper`, and `xdr_Response` of 1-SquareSimple
pub record HyperCodec : Type 0 where
  pub encode_hyper : ℕ → ℤ → Option (List ℕ)
  pub decode_hyper : List ℕ → Option ℤ
  pub encode_pair : ℕ → ℤ → ℤ → Option (List ℕ)
  pub decode_pair : List ℕ → Option (ℤ × ℤ)

-- A hyper takes eight bytes; what was encoded is decoded, and whatever is decoded is in range.
pub record HyperLaws (c : HyperCodec) : Type 0 where
  pub hyper_sent :
      (room : ℕ) (v : ℤ)
      → IsHyper v
      → 8 ≤ room
      → (bs : List ℕ) × (c.encode_hyper room v ≡ some bs)
        × (length bs ≡ 8)
        × (c.decode_hyper bs ≡ some v)
  pub pair_sent :
      (room : ℕ) (v u : ℤ)
      → IsHyper v
      → IsHyper u
      → 16 ≤ room
      → (bs : List ℕ) × (c.encode_pair room v u ≡ some bs)
        × (length bs ≡ 16)
        × (c.decode_pair bs ≡ some (v, u))
  pub hyper_range : (bs : List ℕ) (v : ℤ) → c.decode_hyper bs ≡ some v → IsHyper v

-- `xdr_xdrhypersequence`, and `xdr_Response` of the other versions
pub record SequenceCodec : Type 0 where
  pub encode_sequence : ℕ → List ℤ → Option (List ℕ)
  pub decode_sequence : List ℕ → Option (List ℤ)
  pub encode_response : ℕ → List ℤ → List ℤ → Option (List ℕ)
  pub decode_response : List ℕ → Option (List ℤ × List ℤ)

-- A sequence takes four bytes for its length and eight for each element, and has at most `limit` of
-- them; encoding fails just if the bytes do not fit.
pub record SequenceLaws (c : SequenceCodec) (limit : ℕ) : Type 0 where
  pub sequence_sent :
      (room : ℕ) (vs : List ℤ)
      → AllHyper vs
      → length vs ≤ limit
      → 4 + 8 * length vs ≤ room
      → (bs : List ℕ) × (c.encode_sequence room vs ≡ some bs)
        × (length bs ≡ 4 + 8 * length vs)
        × (c.decode_sequence bs ≡ some vs)
  pub response_sent :
      (room : ℕ) (vs us : List ℤ)
      → AllHyper vs
      → AllHyper us
      → length vs ≤ limit
      → length us ≤ limit
      → 8 + 8 * (length vs + length us) ≤ room
      → (bs : List ℕ) × (c.encode_response room vs us ≡ some bs)
        × (length bs ≡ 8 + 8 * (length vs + length us))
        × (c.decode_response bs ≡ some (vs, us))
  pub response_full :
      (room : ℕ) (vs us : List ℤ)
      → room < 8 + 8 * (length vs + length us)
      → c.encode_response room vs us ≡ none
  pub sequence_range :
      (bs : List ℕ) (vs : List ℤ)
      → c.decode_sequence bs ≡ some vs
      → AllHyper vs × (length vs ≤ limit) × (4 + 8 * length vs ≤ length bs)
