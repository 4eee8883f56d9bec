-- ===== src/Square/Sequences/Replies.antt =====
-- The replies of 4-SquareSequences and of 3-SquareSequencesAlloc to requests.
use dp.Base.{
  ℕ, ◌*◌, ◌≡◌, refl, ap, ◌∙◌, arith, Bool, true, some, List, [], ◌∷◌, ◌++◌, length, ==_self,
}
use dp.Base.Int.{ℤ}
use dp.Os.Calls.{Fd}
use dp.Os.Io.{Io, ok}
use dp.Square.Xdr.{SequenceCodec, SequenceLaws}
use dp.Square.Udp.{Datagram, Udp, UdpLaws, Block, Heap}
use dp.Square.Simple.{buf_len, check_sent, send_reply}
use dp.Square.Sequences.{
  squares, release, array_bytes, respond, free_three, with_second, with_first, decode_freeing,
  start_freeing, service_freeing, answer_sequence, service_static,
}
use dp.Square.Sequences.Squares.{
  AllSquaresFit, map_squared, squares-map_squared, length-map_squared, map_squared-AllHyper,
}

-- Memory that does not run out, apart from the network.
pub record Plenty {W : Type 0} (heap : Heap W) {udp : Udp W} {s : Fd} (net : UdpLaws udp s)
    : Type 0 where
  pub malloc_gives :
      (n : ℕ) (w : W)
      → (b : Block) × ((heap.malloc n w).0 ≡ some b) × (net.gone (heap.malloc n w).1 ≡ net.gone w)
  pub free_apart : (b : Block) (w : W) → net.gone (heap.free b w) ≡ net.gone w

module _ {W : Type 0} (codec : SequenceCodec) (laws : SequenceLaws codec 100) (udp : Udp W) (s : Fd)
    (net : UdpLaws udp s) (d : Datagram) (vs : List ℤ)
    (request : codec.decode_sequence d.bytes ≡ some vs) (fits : AllSquaresFit vs) where
  -- The run has sent one datagram, to the sender of the request, that decodes to the numbers and
  -- their squares.
  abbrev pub OneReply : W → Io W Bool → Type 0
  OneReply w m =
      (e : Datagram) × (w' : W) × (m w ≡ (ok true, w'))
      × (net.gone w' ≡ net.gone w ++ (e ∷ []))
      × (e.peer ≡ d.peer)
      × (codec.decode_response e.bytes ≡ some (vs, map_squared vs))

  respond-OneReply : (w : W) → OneReply w (respond codec udp s d.peer vs (squares vs))
  unfolding respond send_reply check_sent
  respond-OneReply w =
      let (range, limit, size) = laws.sequence_range d.bytes vs request in
      let (bs, encoded, len, decoded) =
        laws.response_sent buf_len vs (map_squared vs) range (map_squared-AllHyper vs fits) limit
          (omega (arith, length-map_squared vs)) (omega (arith, length-map_squared vs)) in
      let reply : Datagram = record { bytes = bs; peer = d.peer } in
      let (whole, same, more) = net.sendto_whole reply w in
      (
        reply,
        (udp.sendto s reply w).1,
        rw (squares-map_squared vs fits, encoded, whole, ==_self (length bs)) refl,
        more,
        refl,
        decoded,
      )

  -- On a network that delivers, a request whose squares all fit is answered by 4-SquareSequences,
  -- whatever its length, by one datagram to its sender that decodes to the numbers and their squares.
  pub service_static-replies : (w : W) → OneReply w (service_static codec udp s d)
  unfolding service_static answer_sequence
  service_static-replies w =
      let (e, w', run, more, peer, decoded) = respond-OneReply w in
      (e, w', rw (request, run) refl, more, peer, decoded)

  -- The same of 3-SquareSequencesAlloc, if its memory does not run out.
  pub service_freeing-replies :
      (heap : Heap W) → Plenty heap net → (w : W) → OneReply w (service_freeing codec udp s heap d)
  unfolding service_freeing start_freeing decode_freeing with_first with_second free_three release
  service_freeing-replies heap plenty w =
      let (a, given1, same1) = plenty.malloc_gives array_bytes w in
      let w1 = (heap.malloc array_bytes w).1 in
      let (b, given2, same2) = plenty.malloc_gives (length vs * 8) w1 in
      let w2 = (heap.malloc (length vs * 8) w1).1 in
      let (c, given3, same3) = plenty.malloc_gives (length vs * 8) w2 in
      let w3 = (heap.malloc (length vs * 8) w2).1 in
      let (e, w4, run, more, peer, decoded) = respond-OneReply w3 in
      (
        e,
        heap.free c (heap.free b (heap.free a w4)),
        rw (given1, request, given2, given3, run) refl,
        plenty.free_apart c _
            ∙ plenty.free_apart b _
            ∙ plenty.free_apart a w4
            ∙ more
            ∙ ap (λ t. t ++ (e ∷ [])) (same3 ∙ same2 ∙ same1),
        peer,
        decoded,
      )
