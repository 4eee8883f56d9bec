-- ===== src/Square/Tcp/Memory.antt =====
-- `service` of the TCP server frees the blocks that it and the XDR library allocate, but for what the
-- library leaves of a request that it cannot decode.
use dp.Base.{
  ℕ, ◌*◌, ◌≡◌, refl, sym, ap, ◌∙◌, Bool, true, false, Option, none, some, List, length, ◌⊎◌, inl,
  inr, subst,
}
use dp.Base.Int.{ℤ}
use dp.Os.Calls.{Fd}
use dp.Os.Net.{update}
use dp.Os.Io.{Result, ok, undefined}
use dp.Square.Udp.{Block, Heap}
use dp.Square.Sequences.{squares, release}
use dp.Square.Sequences.Memory.{one_back, two_back, three_back}
use dp.Square.Tcp.{
  Stream, Stdio, free_all, after_write, write_squares, with_third, with_block, after_read,
  with_output, with_input, tcp_service,
}

-- A block more is in use, or none.
abbrev pub OneMore : (Block → Bool) → (Block → Bool) → Type 0
OneMore f g = (g ≡ f) ⊎ ((b : Block) × (f b ≡ false) × (g ≡ update f b true))

-- What `malloc`, `free`, and the calls on streams do to the blocks in use: the numbers that the XDR
-- library has read stand in a block of their own, and a stream that ends too early may leave that
-- block behind. The memory of the streams themselves is not counted.
pub record StreamHeap {W : Type 0} (io : Stdio W) (heap : Heap W) : Type 0 where
  pub live : W → Block → Bool
  pub malloc_fresh :
      (n : ℕ) (w : W) (b : Block)
      → (heap.malloc n w).0 ≡ some b
      → (live w b ≡ false) × (live (heap.malloc n w).1 ≡ update (live w) b true)
  pub malloc_fails :
      (n : ℕ) (w : W) → (heap.malloc n w).0 ≡ none → live (heap.malloc n w).1 ≡ live w
  pub free_lem : (b : Block) (w : W) → live (heap.free b w) ≡ update (live w) b false
  pub fdopen_read_apart : (s : Fd) (w : W) → live (io.fdopen_read s w).1 ≡ live w
  pub fdopen_write_apart : (s : Fd) (w : W) → live (io.fdopen_write s w).1 ≡ live w
  pub read_fresh :
      (f : Stream) (w : W) (b : Block) (vs : List ℤ)
      → (io.read_sequence f w).0 ≡ some (b, vs)
      → (live w b ≡ false) × (live (io.read_sequence f w).1 ≡ update (live w) b true)
  pub read_fails :
      (f : Stream) (w : W)
      → (io.read_sequence f w).0 ≡ none
      → OneMore (live w) (live (io.read_sequence f w).1)
  pub write_apart :
      (f : Stream) (vs us : List ℤ) (w : W) → live (io.write_response f vs us w).1 ≡ live w
  pub flush_apart : (f : Stream) (w : W) → live (io.flush f w).1 ≡ live w

module _ {W : Type 0} (io : Stdio W) (heap : Heap W) (laws : StreamHeap io heap) where
  -- The process stopped where C defines nothing, or the blocks in use are `f`.
  abbrev pub Clean : (Block → Bool) → Result ℕ × W → Type 0
  Clean f run = (run.0 ≡ undefined) ⊎ (laws.live run.1 ≡ f)

  module _ (out : Stream) (f : Block → Bool) where
    -- The three blocks, asked for in this order.
    record Three (a b c : Block) (w : W) : Type 0 where
      first_free : f a ≡ false
      second_free : update f a true b ≡ false
      third_free : update (update f a true) b true c ≡ false
      all_live : laws.live w ≡ update (update (update f a true) b true) c true

    free_all-Clean :
        (a b c : Block) (result : ℕ) (w w0 : W)
        → Three a b c w0
        → laws.live w ≡ laws.live w0
        → Clean f (free_all io heap a b c result w)
    unfolding free_all release
    free_all-Clean a b c result w w0 t same = inr (
        laws.free_lem c _
        ∙ ap (λ g. update g c false)
            (laws.free_lem b _
              ∙ ap (λ g. update g b false)
                  (laws.free_lem a w ∙ ap (λ g. update g a false) (same ∙ t.all_live)))
        ∙ three_back f a b c t.first_free t.second_free t.third_free)

    after_write-Clean :
        (a b c : Block) (done : Bool) (w w0 : W)
        → Three a b c w0
        → laws.live w ≡ laws.live w0
        → Clean f (after_write io heap out a b c done w)
    unfolding after_write
    after_write-Clean a b c false w w0 t same = free_all-Clean a b c 1 w w0 t same
    after_write-Clean a b c true w w0 t same =
        free_all-Clean a b c 0 (io.flush out w).1 w0 t (laws.flush_apart out w ∙ same)

    write_squares-Clean :
        (a b c : Block) (req : List ℤ) (res : Option (List ℤ)) (w : W)
        → Three a b c w
        → Clean f (write_squares io heap out a b c req res w)
    unfolding write_squares
    write_squares-Clean a b c req none w t = inl refl
    write_squares-Clean a b c req (some res) w t =
        after_write-Clean a b c (io.write_response out req res w).0
          (io.write_response out req res w).1 w t (laws.write_apart out req res w)

    with_third-Clean :
        (a b : Block) (req : List ℤ) (o : Option Block) (w : W)
        → (heap.malloc (length req * 8) w).0 ≡ o
        → f a ≡ false
        → update f a true b ≡ false
        → laws.live w ≡ update (update f a true) b true
        → Clean f (with_third io heap out a b req o (heap.malloc (length req * 8) w).1)
    unfolding with_third release
    with_third-Clean a b req none w e ha hb live = inr (
        laws.free_lem b _
        ∙ ap (λ g. update g b false)
            (laws.free_lem a _
              ∙ ap (λ g. update g a false) (laws.malloc_fails (length req * 8) w e ∙ live))
        ∙ two_back f a b ha hb)
    with_third-Clean a b req (some c) w e ha hb live =
        let (fresh, now) = laws.malloc_fresh (length req * 8) w c e in
        write_squares-Clean a b c req (squares req) (heap.malloc (length req * 8) w).1 (record {
          first_free = ha;
          second_free = hb;
          third_free = sym (ap (λ g. g c) live) ∙ fresh;
          all_live = now ∙ ap (λ g. update g c true) live;
        })

    with_block-Clean :
        (a : Block) (req : List ℤ) (o : Option Block) (w : W)
        → (heap.malloc (length req * 8) w).0 ≡ o
        → f a ≡ false
        → laws.live w ≡ update f a true
        → Clean f (with_block io heap out a req o (heap.malloc (length req * 8) w).1)
    unfolding with_block release
    with_block-Clean a req none w e ha live = inr (
        laws.free_lem a _
        ∙ ap (λ g. update g a false) (laws.malloc_fails (length req * 8) w e ∙ live)
        ∙ one_back f a ha)
    with_block-Clean a req (some b) w e ha live =
        let (fresh, now) = laws.malloc_fresh (length req * 8) w b e in
        let w1 = (heap.malloc (length req * 8) w).1 in
        with_third-Clean a b req (heap.malloc (length req * 8) w1).0 w1 refl ha
          (sym (ap (λ g. g b) live) ∙ fresh) (now ∙ ap (λ g. update g b true) live)

  -- The request cannot be decoded: `service` returns -1 at once, in the state that the library left,
  -- in which one block more may be in use.
  pub record NotDecoded (input : Stream) (w2 : W) (f : Block → Bool) (run : Result ℕ × W)
      : Type 0 where
    pub not_decoded : (io.read_sequence input w2).0 ≡ none
    pub at_once : run ≡ (ok 1, (io.read_sequence input w2).1)
    pub one_more : OneMore f (laws.live run.1)

  after_read-Clean :
      (input out : Stream) (o : Option (Block × List ℤ)) (w : W)
      → (io.read_sequence input w).0 ≡ o
      → Clean (laws.live w) (after_read io heap out o (io.read_sequence input w).1)
        ⊎ NotDecoded input w (laws.live w) (after_read io heap out o (io.read_sequence input w).1)
  unfolding after_read
  after_read-Clean input out none w e =
      inr (record { not_decoded = e; at_once = refl; one_more = laws.read_fails input w e })
  after_read-Clean input out (some (a, req)) w e =
      let (fresh, now) = laws.read_fresh input w a req e in
      let w1 = (io.read_sequence input w).1 in
      inl (
        with_block-Clean out (laws.live w) a req (heap.malloc (length req * 8) w1).0 w1 refl fresh
          now)

  with_output-Clean :
      (f : Block → Bool) (input : Stream) (o : Option Stream) (w : W)
      → laws.live w ≡ f
      → Clean f (with_output io heap input o w)
        ⊎ NotDecoded input w f (with_output io heap input o w)
  unfolding with_output
  with_output-Clean f input none w same = inl (inr same)
  with_output-Clean f input (some out) w same =
      subst
        (λ g.
          Clean g (with_output io heap input (some out) w)
          ⊎ NotDecoded input w g (with_output io heap input (some out) w))
        same (after_read-Clean input out (io.read_sequence input w).0 w refl)

  -- Either the blocks in use are the ones that were in use before, or both streams are open and the
  -- request was not decoded.
  abbrev pub Kept : Fd → W → Result ℕ × W → Type 0
  Kept s w run =
      Clean (laws.live w) run
      ⊎ ((input : Stream) × ((io.fdopen_read s w).0 ≡ some input)
          × NotDecoded input (io.fdopen_write s (io.fdopen_read s w).1).1 (laws.live w) run)

  with_input-Kept :
      (s : Fd) (w : W) (o : Option Stream)
      → (io.fdopen_read s w).0 ≡ o
      → Kept s w (with_input io heap s o (io.fdopen_read s w).1)
  unfolding with_input
  with_input-Kept s w none e = inl (inr (laws.fdopen_read_apart s w))
  with_input-Kept s w (some input) e =
      elim (with_output-Clean (laws.live w) input (io.fdopen_write s (io.fdopen_read s w).1).0
        (io.fdopen_write s (io.fdopen_read s w).1).1
        (laws.fdopen_write_apart s (io.fdopen_read s w).1 ∙ laws.fdopen_read_apart s w)) [
          | inl clean ↦ inl clean
          | inr failed ↦ inr (input, e, failed)
        ]

  -- Whatever comes on the connection and whichever of the calls fail: where the request is decoded or
  -- a stream cannot be opened, when `service` of the TCP server returns or ends the process, the
  -- blocks in use, those of the XDR library among them, are the ones that were in use before; it does
  -- neither where a square overflows, which C leaves undefined. Where the request cannot be decoded,
  -- `service` returns -1 at once, and frees nothing: the block that the library may have allocated
  -- for the numbers stays in use.
  pub tcp_service-Kept : (s : Fd) (w : W) → Kept s w (tcp_service io heap s w)
  unfolding tcp_service
  tcp_service-Kept s w = with_input-Kept s w (io.fdopen_read s w).0 refl
