-- ===== src/Square/Sequences/Leak.antt =====
-- 2-SquareSequencesAllocNoFree leaves its blocks behind.
use dp.Base.{
  ℕ, ◌*◌, ◌≡◌, ap, ◌∙◌, arith, Bool, true, false, Option, none, some, List, length, inl, inr,
  Option-cases, ◌⊎◌,
}
use dp.Base.Int.{ℤ}
use dp.Os.Calls.{Fd}
use dp.Os.Net.{update}
use dp.Os.Io.{Result, undefined}
use dp.Square.Xdr.{SequenceCodec}
use dp.Square.Udp.{Address, Datagram, Udp, Block, Heap, HeapLaws}
use dp.Square.Sequences.{squares, array_bytes, with_both, ask_both, decode_keeping, service_keeping}
use dp.Square.Sequences.Memory.{respond-Apart}

stays : (f g : Block → Bool) (a b : Block) → g ≡ update f b true → f a ≡ true → g a ≡ true
stays f g a b e h = ap (λ t. t a) e ∙ ground (arith, h)

module _ {W : Type 0} (codec : SequenceCodec) (udp : Udp W) (s : Fd) (heap : Heap W)
    (laws : HeapLaws heap udp) where
  abbrev pub StillLive : Block → Result Bool × W → Type 0
  StillLive a run = (run.0 ≡ undefined) ⊎ (laws.live run.1 a ≡ true)

  malloc-StillLive :
      (a : Block) (n : ℕ) (w : W) → laws.live w a ≡ true → laws.live (heap.malloc n w).1 a ≡ true
  malloc-StillLive a n w h = elim (Option-cases (heap.malloc n w).0) [
    | inl failed ↦ ap (λ t. t a) (laws.malloc_fails n w failed) ∙ h
    | inr (b, given) ↦
        stays (laws.live w) (laws.live (heap.malloc n w).1) a b (laws.malloc_fresh n w b given).1 h
  ]

  with_both-StillLive :
      (from : Address) (req : List ℤ) (a : Block) (b c : Option Block) (w : W)
      → laws.live w a ≡ true
      → StillLive a (with_both codec udp s heap from req b c w)
  unfolding with_both
  with_both-StillLive from req a none c w h = inr h
  with_both-StillLive from req a (some b) none w h = inr h
  with_both-StillLive from req a (some b) (some c) w h =
      elim (respond-Apart codec udp s heap laws from req (squares req) w) [
        | inl stuck ↦ inl stuck
        | inr (result, w2, run, same) ↦ inr (rw run (ap (λ t. t a) same ∙ h))
      ]

  ask_both-StillLive :
      (from : Address) (a : Block) (o : Option (List ℤ)) (w : W)
      → laws.live w a ≡ true
      → StillLive a (ask_both codec udp s heap from o w)
  unfolding ask_both
  ask_both-StillLive from a none w h = inr h
  ask_both-StillLive from a (some req) w h =
      let w1 = (heap.malloc (length req * 8) w).1 in
      with_both-StillLive from req a (heap.malloc (length req * 8) w).0
        (heap.malloc (length req * 8) w1).0 (heap.malloc (length req * 8) w1).1
        (malloc-StillLive a (length req * 8) w1 (malloc-StillLive a (length req * 8) w h))

  -- Whatever datagram comes: if the first `malloc` of `service` of 2-SquareSequencesAllocNoFree gives
  -- a block, that block was not in use, and it is in use when the service returns, request or not.
  pub service_keeping-leaks :
      (d : Datagram) (a : Block) (w : W)
      → (heap.malloc array_bytes w).0 ≡ some a
      → (laws.live w a ≡ false) × StillLive a (service_keeping codec udp s heap d w)
  unfolding service_keeping decode_keeping
  service_keeping-leaks d a w given =
      let (fresh, now) = laws.malloc_fresh array_bytes w a given in
      (
        fresh,
        rw given (
            ask_both-StillLive d.peer a (codec.decode_sequence d.bytes)
              (heap.malloc array_bytes w).1 (ap (λ t. t a) now ∙ ground arith)),
      )
