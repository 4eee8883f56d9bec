-- ===== src/Square/Sequences/Memory.antt =====
-- 3-SquareSequencesAlloc frees what it allocates, on every path.
use dp.Base.{
  ◌*◌, ◌≡◌, refl, sym, ap, ◌∙◌, fun_ext, arith, Bool, true, false, Option, none, some, List, length,
  ◌⊎◌, inl, inr, Option-cases, ◌==◌,
}
use dp.Base.Int.{ℤ}
use dp.Os.Calls.{Fd}
use dp.Os.Net.{update}
use dp.Os.Io.{Result, ok, undefined}
use dp.Square.Xdr.{SequenceCodec}
use dp.Square.Udp.{Address, Datagram, Udp, Block, Heap, HeapLaws}
use dp.Square.Simple.{buf_len, check_sent, send_reply}
use dp.Square.Sequences.{
  squares, release, array_bytes, respond, free_three, with_second, with_first, decode_freeing,
  start_freeing, service_freeing,
}

-- Blocks that were not in use, put to use and freed.
pub one_back : (f : Block → Bool) (a : Block) → f a ≡ false → update (update f a true) a false ≡ f
one_back f a ha = fun_ext λ j. ground (arith, ha)

pub two_back :
    (f : Block → Bool) (a b : Block)
    → f a ≡ false
    → update f a true b ≡ false
    → update (update (update (update f a true) b true) a false) b false ≡ f
two_back f a b ha hb = fun_ext λ j. ground (arith, ha, hb)

pub three_back :
    (f : Block → Bool) (a b c : Block)
    → f a ≡ false
    → update f a true b ≡ false
    → update (update f a true) b true c ≡ false
    → update
        (update (update (update (update (update f a true) b true) c true) a false) b false)
        c
        false
      ≡ f
three_back f a b c ha hb hc = fun_ext λ j. ground (arith, ha, hb, hc)

module _ {W : Type 0} (codec : SequenceCodec) (udp : Udp W) (s : Fd) (heap : Heap W)
    (laws : HeapLaws heap udp) where
  -- The process stopped where C defines nothing, or the blocks in use are `f`.
  abbrev pub Clean : (Block → Bool) → Result Bool × W → Type 0
  Clean f run = (run.0 ≡ undefined) ⊎ (laws.live run.1 ≡ f)

  -- A reply is sent or not, and the memory stays as it is.
  abbrev pub Apart : W → Result Bool × W → Type 0
  Apart w run =
      (run.0 ≡ undefined)
      ⊎ ((b : Bool) × (w' : W) × (run ≡ (ok b, w')) × (laws.live w' ≡ laws.live w))

  pub respond-Apart :
      (from : Address) (req : List ℤ) (o : Option (List ℤ)) (w : W)
      → Apart w (respond codec udp s from req o w)
  unfolding respond send_reply check_sent
  respond-Apart from req none w = inl refl
  respond-Apart from req (some out) w =
      elim (Option-cases (codec.encode_response buf_len req out)) [
        | inl full ↦ rw full (inr (false, w, refl, refl))
        | inr (bs, fits) ↦
            let d : Datagram = record { bytes = bs; peer = from } in
            elim (Option-cases (udp.sendto s d w).0) [
              | inl failed ↦
                  inr (false, (udp.sendto s d w).1, rw (fits, failed) refl, laws.sendto_apart s d w)
              | inr (k, sent) ↦ inr (
                k == length bs,
                (udp.sendto s d w).1,
                rw (fits, sent) refl,
                laws.sendto_apart s d w,
              )
            ]
      ]

  module _ (f : Block → Bool) where
    -- The three blocks, asked for in this order.
    record Three (a b c : Block) (w : W) : Type 0 where
      first_free : f a ≡ false
      second_free : update f a true b ≡ false
      third_free : update (update f a true) b true c ≡ false
      all_live : laws.live w ≡ update (update (update f a true) b true) c true

    free_three-Clean :
        (a b c : Block) (result : Bool) (w w0 : W)
        → Three a b c w0
        → laws.live w ≡ laws.live w0
        → Clean f (free_three codec udp s heap a b c result w)
    unfolding free_three release
    free_three-Clean a b c result w w0 t same = inr (
        laws.free_lem c _
        ∙ ap (λ g. update g c false)
            (laws.free_lem b _
              ∙ ap (λ g. update g b false)
                  (laws.free_lem a w ∙ ap (λ g. update g a false) (same ∙ t.all_live)))
        ∙ three_back f a b c t.first_free t.second_free t.third_free)

    with_second-Clean :
        (from : Address) (req : List ℤ) (a b : Block) (o : Option Block) (w : W)
        → (heap.malloc (length req * 8) w).0 ≡ o
        → f a ≡ false
        → update f a true b ≡ false
        → laws.live w ≡ update (update f a true) b true
        → Clean f (with_second codec udp s heap from req a b o (heap.malloc (length req * 8) w).1)
    unfolding with_second release
    with_second-Clean from req a b none w e ha hb live = inr (
        laws.free_lem b _
        ∙ ap (λ g. update g b false)
            (laws.free_lem a _
              ∙ ap (λ g. update g a false) (laws.malloc_fails (length req * 8) w e ∙ live))
        ∙ two_back f a b ha hb)
    with_second-Clean from req a b (some c) w e ha hb live =
        let (fresh, now) = laws.malloc_fresh (length req * 8) w c e in
        let w1 = (heap.malloc (length req * 8) w).1 in
        let three : Three a b c w1 = record {
          first_free = ha;
          second_free = hb;
          third_free = sym (ap (λ g. g c) live) ∙ fresh;
          all_live = now ∙ ap (λ g. update g c true) live;
        } in
        elim (respond-Apart from req (squares req) w1) [
          | inl stuck ↦ inl (rw stuck refl)
          | inr (result, w2, run, same) ↦ rw run (free_three-Clean a b c result w2 w1 three same)
        ]

    with_first-Clean :
        (from : Address) (req : List ℤ) (a : Block) (o : Option Block) (w : W)
        → (heap.malloc (length req * 8) w).0 ≡ o
        → f a ≡ false
        → laws.live w ≡ update f a true
        → Clean f (with_first codec udp s heap from req a o (heap.malloc (length req * 8) w).1)
    unfolding with_first release
    with_first-Clean from req a none w e ha live = inr (
        laws.free_lem a _
        ∙ ap (λ g. update g a false) (laws.malloc_fails (length req * 8) w e ∙ live)
        ∙ one_back f a ha)
    with_first-Clean from req a (some b) w e ha live =
        let (fresh, now) = laws.malloc_fresh (length req * 8) w b e in
        let w1 = (heap.malloc (length req * 8) w).1 in
        with_second-Clean from req a b (heap.malloc (length req * 8) w1).0 w1 refl ha
          (sym (ap (λ g. g b) live) ∙ fresh) (now ∙ ap (λ g. update g b true) live)

    decode_freeing-Clean :
        (from : Address) (a : Block) (o : Option (List ℤ)) (w : W)
        → f a ≡ false
        → laws.live w ≡ update f a true
        → Clean f (decode_freeing codec udp s heap from a o w)
    unfolding decode_freeing release
    decode_freeing-Clean from a none w ha live =
        inr (laws.free_lem a w ∙ ap (λ g. update g a false) live ∙ one_back f a ha)
    decode_freeing-Clean from a (some req) w ha live =
        with_first-Clean from req a (heap.malloc (length req * 8) w).0 w refl ha live

  start_freeing-Clean :
      (d : Datagram) (o : Option Block) (w : W)
      → (heap.malloc array_bytes w).0 ≡ o
      → Clean (laws.live w) (start_freeing codec udp s heap d o (heap.malloc array_bytes w).1)
  unfolding start_freeing
  start_freeing-Clean d none w e = inr (laws.malloc_fails array_bytes w e)
  start_freeing-Clean d (some a) w e =
      let (fresh, now) = laws.malloc_fresh array_bytes w a e in
      decode_freeing-Clean (laws.live w) d.peer a (codec.decode_sequence d.bytes)
        (heap.malloc array_bytes w).1 fresh now

  -- Whatever datagram comes, whichever of the calls fail and whether the reply goes out or not: when
  -- `service` of 3-SquareSequencesAlloc returns, the blocks in use are those that were in use before.
  -- It does not return where a square overflows, which C leaves undefined.
  pub service_freeing-Clean :
      (d : Datagram) (w : W) → Clean (laws.live w) (service_freeing codec udp s heap d w)
  unfolding service_freeing
  service_freeing-Clean d w = start_freeing-Clean d (heap.malloc array_bytes w).0 w refl
