-- ===== src/Square/Sequences.antt =====
-- The servers of sequences over UDP: 2-SquareSequencesAllocNoFree, which allocates and never frees,
-- 3-SquareSequencesAlloc, which frees, and 4-SquareSequences, which has arrays of its own.
pub mod Squares
pub mod Memory
pub mod Leak
pub mod Replies
use dp.Base.{ℕ, zero, suc, ◌*◌, Bool, true, false, Option, none, some, List, [], ◌∷◌, length}
use dp.Base.Int.{ℤ, square}
use dp.Os.Calls.{Fd}
use dp.Os.Io.{Io, ok, undefined, pure, stop, call, ◌>>=◌, ◌>>◌}
use dp.Square.Xdr.{SequenceCodec}
use dp.Square.Udp.{Address, Datagram, Udp, Block, Heap}
use dp.Square.Simple.{buf_len, send_reply, serve_datagrams}

-- The loop over the elements: `none` where a product overflows.
unfoldable pub cons_square : Option ℤ → Option (List ℤ) → Option (List ℤ)
cons_square none rest = none
cons_square (some v) none = none
cons_square (some v) (some vs) = some (v ∷ vs)

unfoldable pub squares : List ℤ → Option (List ℤ)
unfolding cons_square square
squares [] = some []
squares (v ∷ vs) = cons_square (square v) (squares vs)

-- `free`
unfoldable pub release : {W : Type 0} → Heap W → Block → Io W (Unit {0})
release heap b w = (ok tt, heap.free b w)

-- The array of 100 hypers.
abbrev pub array_bytes : ℕ
array_bytes = 800

module _ {W : Type 0} (codec : SequenceCodec) (udp : Udp W) (s : Fd) where
  -- From the squares on; the response is encoded into BUFLEN bytes.
  unfoldable pub respond : Address → List ℤ → Option (List ℤ) → Io W Bool
  unfolding send_reply
  respond from req none = stop undefined
  respond from req (some out) = send_reply udp s from (codec.encode_response buf_len req out)

  module _ (heap : Heap W) where
    -- 2-SquareSequencesAllocNoFree: both blocks are asked for before either is tested.
    unfoldable pub with_both : Address → List ℤ → Option Block → Option Block → Io W Bool
    unfolding respond squares
    with_both from req none second = pure false
    with_both from req (some b) none = pure false
    with_both from req (some b) (some c) = respond from req (squares req)

    unfoldable pub ask_both : Address → Option (List ℤ) → Io W Bool
    unfolding with_both
    ask_both from none = pure false
    ask_both from (some req) = call (heap.malloc (length req * 8)) >>= λ b.
        call (heap.malloc (length req * 8)) >>= λ c. with_both from req b c

    unfoldable pub decode_keeping : Datagram → Option Block → Io W Bool
    unfolding ask_both
    decode_keeping d none = pure false
    decode_keeping d (some a) = ask_both d.peer (codec.decode_sequence d.bytes)

    unfoldable pub service_keeping : Datagram → Io W Bool
    unfolding decode_keeping
    service_keeping d = call (heap.malloc array_bytes) >>= decode_keeping d

    -- 3-SquareSequencesAlloc: what was allocated is freed before every `return`.
    unfoldable pub free_three : Block → Block → Block → Bool → Io W Bool
    unfolding release
    free_three a b c result = do release heap a; release heap b; release heap c; pure result

    unfoldable pub with_second : Address → List ℤ → Block → Block → Option Block → Io W Bool
    unfolding free_three respond squares
    with_second from req a b none = do release heap a; release heap b; pure false
    with_second from req a b (some c) = respond from req (squares req) >>= free_three a b c

    unfoldable pub with_first : Address → List ℤ → Block → Option Block → Io W Bool
    unfolding with_second
    with_first from req a none = do release heap a; pure false
    with_first from req a (some b) =
        call (heap.malloc (length req * 8)) >>= with_second from req a b

    unfoldable pub decode_freeing : Address → Block → Option (List ℤ) → Io W Bool
    unfolding with_first
    decode_freeing from a none = do release heap a; pure false
    decode_freeing from a (some req) = call (heap.malloc (length req * 8)) >>= with_first from req a

    unfoldable pub start_freeing : Datagram → Option Block → Io W Bool
    unfolding decode_freeing
    start_freeing d none = pure false
    start_freeing d (some a) = decode_freeing d.peer a (codec.decode_sequence d.bytes)

    unfoldable pub service_freeing : Datagram → Io W Bool
    unfolding start_freeing
    service_freeing d = call (heap.malloc array_bytes) >>= start_freeing d

    -- The loops of their `main`
    unfoldable pub serve_keeping : ℕ → Io W (Unit {0})
    unfolding service_keeping serve_datagrams
    serve_keeping turns = serve_datagrams udp service_keeping s 65535 turns

    unfoldable pub serve_freeing : ℕ → Io W (Unit {0})
    unfolding service_freeing serve_datagrams
    serve_freeing turns = serve_datagrams udp service_freeing s 65535 turns

  -- 4-SquareSequences
  unfoldable pub answer_sequence : Address → Option (List ℤ) → Io W Bool
  unfolding respond squares
  answer_sequence from none = pure false
  answer_sequence from (some req) = respond from req (squares req)

  unfoldable pub service_static : Datagram → Io W Bool
  unfolding answer_sequence
  service_static d = answer_sequence d.peer (codec.decode_sequence d.bytes)

  unfoldable pub serve_static : ℕ → Io W (Unit {0})
  unfolding service_static serve_datagrams
  serve_static turns = serve_datagrams udp service_static s 65535 turns
