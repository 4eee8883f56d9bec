-- ===== src/Square/Rfc/Laws.antt =====
-- The codec of RFC 4506 keeps the laws of `Xdr`.
use dp.Base.{
  ℕ, ◌+◌, ◌*◌, ◌≤◌, ◌<◌, ◌≡◌, refl, sym, ap, ◌∙◌, arith, some, List, [], ◌++◌, length,
  length-append, append-nil,
}
use dp.Base.Int.{ℤ, IsHyper, AllHyper}
use dp.Base.Words.{u32_mod}
use dp.Square.Xdr.{HyperLaws, SequenceLaws}
use dp.Square.Rfc.{
  put_hyper, get_u32, get_hyper, put_sequence, get_sequence, first_of, pair_with, second_hyper,
  second_sequence, rfc_hyper, rfc_sequence,
}
use dp.Square.Rfc.RoundTrip.{
  get_hyper-put_hyper, length-put_hyper, length-put_sequence, get_sequence-put_sequence,
  in_room_fits, in_room_full,
}
use dp.Square.Rfc.Range.{get_hyper_bound, first_inverse, elements_bound}

hyper_sent_lem :
    (room : ℕ) (v : ℤ)
    → IsHyper v
    → 8 ≤ room
    → (bs : List ℕ) × (rfc_hyper.encode_hyper room v ≡ some bs)
      × (length bs ≡ 8)
      × (rfc_hyper.decode_hyper bs ≡ some v)
unfolding first_of
hyper_sent_lem room v h fits = (
  put_hyper v,
  in_room_fits room (put_hyper v) (omega (arith, length-put_hyper v)),
  length-put_hyper v,
  ap first_of (ap get_hyper (sym (append-nil (put_hyper v))) ∙ get_hyper-put_hyper v [] h),
)

pair_sent_lem :
    (room : ℕ) (v u : ℤ)
    → IsHyper v
    → IsHyper u
    → 16 ≤ room
    → (bs : List ℕ) × (rfc_hyper.encode_pair room v u ≡ some bs)
      × (length bs ≡ 16)
      × (rfc_hyper.decode_pair bs ≡ some (v, u))
unfolding second_hyper pair_with first_of
pair_sent_lem room v u hv hu fits =
    let size : length (put_hyper v ++ put_hyper u) ≡ 16 =
      omega (
        arith,
        length-append (put_hyper v) (put_hyper u),
        length-put_hyper v,
        length-put_hyper u,
      ) in
    let last : get_hyper (put_hyper u) ≡ some (u, []) =
      ap get_hyper (sym (append-nil (put_hyper u))) ∙ get_hyper-put_hyper u [] hu in
    (
      put_hyper v ++ put_hyper u,
      in_room_fits room (put_hyper v ++ put_hyper u) (omega arith),
      size,
      ap second_hyper (get_hyper-put_hyper v (put_hyper u) hv)
          ∙ ap (λ t. pair_with v (first_of t)) last,
    )

hyper_range_lem : (bs : List ℕ) (v : ℤ) → rfc_hyper.decode_hyper bs ≡ some v → IsHyper v
hyper_range_lem bs v e =
    let (rest, got) = first_inverse (get_hyper bs) v e in (get_hyper_bound bs v rest got).0

pub rfc_hyper-HyperLaws : HyperLaws rfc_hyper
rfc_hyper-HyperLaws = record {
  hyper_sent = λ room v h fits. hyper_sent_lem room v h fits;
  pair_sent = λ room v u hv hu fits. pair_sent_lem room v u hv hu fits;
  hyper_range = λ bs v e. hyper_range_lem bs v e;
}

module _ (limit : ℕ) (small : limit < u32_mod) where
  sequence_sent_lem :
      (room : ℕ) (vs : List ℤ)
      → AllHyper vs
      → length vs ≤ limit
      → 4 + 8 * length vs ≤ room
      → (bs : List ℕ) × ((rfc_sequence limit).encode_sequence room vs ≡ some bs)
        × (length bs ≡ 4 + 8 * length vs)
        × ((rfc_sequence limit).decode_sequence bs ≡ some vs)
  unfolding first_of
  sequence_sent_lem room vs h short fits = (
    put_sequence vs,
    in_room_fits room (put_sequence vs) (omega (arith, length-put_sequence vs)),
    length-put_sequence vs,
    ap first_of (
        ap (get_sequence limit) (sym (append-nil (put_sequence vs)))
        ∙ get_sequence-put_sequence limit vs [] small h short),
  )

  response_size :
      (vs us : List ℤ)
      → length (put_sequence vs ++ put_sequence us) ≡ 8 + 8 * (length vs + length us)
  response_size vs us = omega (
    arith,
    length-append (put_sequence vs) (put_sequence us),
    length-put_sequence vs,
    length-put_sequence us,
  )

  response_sent_lem :
      (room : ℕ) (vs us : List ℤ)
      → AllHyper vs
      → AllHyper us
      → length vs ≤ limit
      → length us ≤ limit
      → 8 + 8 * (length vs + length us) ≤ room
      → (bs : List ℕ) × ((rfc_sequence limit).encode_response room vs us ≡ some bs)
        × (length bs ≡ 8 + 8 * (length vs + length us))
        × ((rfc_sequence limit).decode_response bs ≡ some (vs, us))
  unfolding second_sequence pair_with first_of
  response_sent_lem room vs us hv hu nv nu fits =
      let last : get_sequence limit (put_sequence us) ≡ some (us, []) =
        ap (get_sequence limit) (sym (append-nil (put_sequence us)))
        ∙ get_sequence-put_sequence limit us [] small hu nu in
      (
        put_sequence vs ++ put_sequence us,
        in_room_fits room (put_sequence vs ++ put_sequence us) (omega (arith, response_size vs us)),
        response_size vs us,
        ap (second_sequence limit)
              (get_sequence-put_sequence limit vs (put_sequence us) small hv nv)
            ∙ ap (λ t. pair_with vs (first_of t)) last,
      )

  sequence_range_lem :
      (bs : List ℕ) (vs : List ℤ)
      → (rfc_sequence limit).decode_sequence bs ≡ some vs
      → AllHyper vs × (length vs ≤ limit) × (4 + 8 * length vs ≤ length bs)
  sequence_range_lem bs vs e =
      let (rest, got) = first_inverse (get_sequence limit bs) vs e in
      elements_bound limit bs (get_u32 bs) vs rest refl (unfold get_sequence in got)

  pub rfc_sequence-SequenceLaws : SequenceLaws (rfc_sequence limit) limit
  rfc_sequence-SequenceLaws = record {
    sequence_sent = sequence_sent_lem;
    response_sent = response_sent_lem;
    response_full = λ room vs us h.
        in_room_full room (put_sequence vs ++ put_sequence us) (omega (arith, response_size vs us));
    sequence_range = sequence_range_lem;
  }
