-- ===== src/Square/Client.antt =====
-- The clients over UDP: SquareClient.c of 1-SquareSimple, 2-SquareSequencesAllocNoFree,
-- 3-SquareSequencesAlloc and 4-SquareSequences.
pub mod Exchange
use dp.Base.{ℕ, zero, suc, ◌^◌, Option, none, some, List, [], ◌∷◌, length, ◌==◌, if◌then◌else◌}
use dp.Base.Int.{ℤ, pos, to_uint}
use dp.Os.Calls.{Fd, Os}
use dp.Os.Io.{Io, ok, undefined, pure, quit, stop, call, ◌>>=◌, ◌>>◌}
use dp.Errlib.{err_sys}
use dp.Square.Xdr.{HyperCodec, SequenceCodec}
use dp.Square.Udp.{Block, Heap}
use dp.SumServer.Decimal.{Scan, no_number, unfit, number, c_string, scan_unsigned}

-- BUFLEN of the clients
abbrev pub line_len : ℕ
line_len = 512

-- TIMEOUT
abbrev pub timeout : ℕ
timeout = 15

-- The first number that `unsigned int` cannot hold.
abbrev pub uint_limit : ℕ
uint_limit = 2 ^ 32

-- What a turn of the loop prints: the numbers of an answer, or why there are none.
pub data Printed : Type 0 where
  write_error no_response not_received not_decoded : Printed
  shown : ℕ → ℕ → Printed
  shown_sequence : ℕ → ℕ → List (ℕ × ℕ) → Printed

module _ (os : Os) where
  -- A number is typed. Without one `input` keeps no value that C defines.
  unfoldable pub use_number : (ℕ → Io os.World Printed) → Scan → Io os.World Printed
  use_number next no_number = stop undefined
  use_number next unfit = stop undefined
  use_number next (number input rest) = next input

  unfoldable pub use_line : (ℕ → Io os.World Printed) → Option (List ℕ) → Io os.World Printed
  unfolding use_number scan_unsigned c_string
  use_line next none = stop undefined
  use_line next (some line) = use_number next (scan_unsigned uint_limit (c_string line))

  unfoldable pub ask_number : (ℕ → Io os.World Printed) → Io os.World Printed
  unfolding use_line
  ask_number next = call (os.fgets line_len) >>= use_line next

  -- Two numbers on two lines. If the input ends behind the first one, `fgets` leaves that line in the
  -- array, and it is scanned again.
  unfoldable pub second_line :
      (ℕ → Io os.World Printed) → List ℕ → Option (List ℕ) → Io os.World Printed
  unfolding use_number scan_unsigned c_string
  second_line next line none = use_number next (scan_unsigned uint_limit (c_string line))
  second_line next line (some other) = use_number next (scan_unsigned uint_limit (c_string other))

  unfoldable pub first_line : (ℕ → ℕ → Io os.World Printed) → Option (List ℕ) → Io os.World Printed
  unfolding use_number second_line scan_unsigned c_string
  first_line next none = stop undefined
  first_line next (some line) =
      use_number (λ input1. call (os.fgets line_len) >>= second_line (next input1) line)
        (scan_unsigned uint_limit (c_string line))

  unfoldable pub ask_two : (ℕ → ℕ → Io os.World Printed) → Io os.World Printed
  unfolding first_line
  ask_two next = call (os.fgets line_len) >>= first_line next

  module _ (s : Fd) (decoded : List ℕ → Io os.World Printed) where
    unfoldable pub use_answer : Option (List ℕ) → Io os.World Printed
    use_answer none = pure not_received
    use_answer (some bs) = decoded bs

    unfoldable pub after_wait : Option (List Fd) → Io os.World Printed
    unfolding use_answer
    after_wait none = err_sys
    after_wait (some []) = pure no_response
    after_wait (some (fd ∷ ready)) = call (os.recv s 511 0) >>= use_answer

    unfoldable pub after_send : ℕ → Option ℕ → Io os.World Printed
    unfolding after_wait
    after_send len none = pure write_error
    after_send len (some n) =
        if n == len
        then (call (os.select (s ∷ []) (some timeout)) >>= after_wait)
        else pure write_error

    -- A request that cannot be encoded makes `main` return -1.
    unfoldable pub exchange : Option (List ℕ) → Io os.World Printed
    unfolding after_send
    exchange none = quit 255
    exchange (some bs) = call (os.send s bs 0) >>= after_send (length bs)

  -- `for (;;)`, for a number of turns
  unfoldable pub client_loop : Io os.World Printed → ℕ → Io os.World (List Printed)
  client_loop turn zero w = (ok [], w)
  client_loop turn (suc turns) w = (turn >>= λ p. client_loop turn turns >>= λ ps. pure (p ∷ ps)) w

  -- 1-SquareSimple
  module _ (codec : HyperCodec) (s : Fd) where
    unfoldable pub print_pair : Option (ℤ × ℤ) → Io os.World Printed
    print_pair none = pure not_decoded
    print_pair (some (request, response)) = pure (shown (to_uint request) (to_uint response))

    unfoldable pub decode_and_print : List ℕ → Io os.World Printed
    unfolding print_pair
    decode_and_print bs = print_pair (codec.decode_pair bs)

    unfoldable pub send_number : ℕ → Io os.World Printed
    unfolding exchange decode_and_print
    send_number input = exchange s decode_and_print (codec.encode_hyper line_len (pos input))

    unfoldable pub simple_turn : Io os.World Printed
    unfolding send_number ask_number
    simple_turn = ask_number send_number

    unfoldable pub simple_client : ℕ → Io os.World (List Printed)
    unfolding simple_turn client_loop
    simple_client turns = client_loop simple_turn turns

  -- The first elements of both sequences, if they are there.
  unfoldable pub first_pairs : ℕ → List ℤ → List ℤ → Option (List (ℕ × ℕ))
  first_pairs zero vs us = some []
  first_pairs (suc n) (v ∷ vs) (u ∷ us) = elim (first_pairs n vs us) [
    | none ↦ none
    | some ps ↦ some ((to_uint v, to_uint u) ∷ ps)
  ]
  first_pairs (suc n) vs us = none

  unfoldable pub print_pairs : ℕ → ℕ → Option (List (ℕ × ℕ)) → Io os.World Printed
  print_pairs n m none = stop undefined
  print_pairs n m (some ps) = pure (shown_sequence n m ps)

  unfoldable pub print_sequences : ℕ → Option (List ℤ × List ℤ) → Io os.World Printed
  unfolding print_pairs first_pairs
  print_sequences count none = pure not_decoded
  print_sequences count (some (vs, us)) =
      print_pairs (length vs) (length us) (first_pairs count vs us)

  module _ (codec : SequenceCodec) (s : Fd) where
    module _ (heap : Heap os.World) where
      -- The two blocks for the answer are not tested, and the decoder asks for its own if they are
      -- missing.
      unfoldable pub decode_sequences : ℕ → List ℕ → Io os.World Printed
      unfolding print_sequences
      decode_sequences count bs =
          call (heap.malloc 4096)
          >> call (heap.malloc 4096)
          >> print_sequences count (codec.decode_response bs)

      -- The numbers are stored in the block without a test.
      unfoldable pub send_numbers : List ℤ → Option Block → Io os.World Printed
      unfolding exchange decode_sequences
      send_numbers vs none = stop undefined
      send_numbers vs (some b) =
          exchange s (decode_sequences (length vs)) (codec.encode_sequence line_len vs)

      -- 2-SquareSequencesAllocNoFree
      unfoldable pub one_turn : Io os.World Printed
      unfolding ask_number send_numbers
      one_turn = ask_number λ input. call (heap.malloc 8) >>= send_numbers (pos input ∷ [])

      -- 3-SquareSequencesAlloc
      unfoldable pub two_turn : Io os.World Printed
      unfolding ask_two send_numbers
      two_turn = ask_number λ input1.
          ask_number λ input2. call (heap.malloc 16) >>= send_numbers (pos input1 ∷ pos input2 ∷ [])

      unfoldable pub one_client : ℕ → Io os.World (List Printed)
      unfolding one_turn client_loop
      one_client turns = client_loop one_turn turns

      unfoldable pub two_client : ℕ → Io os.World (List Printed)
      unfolding two_turn client_loop
      two_client turns = client_loop two_turn turns

    -- 4-SquareSequences: the first sequence of the answer is stored over the request.
    unfoldable pub over_request : List ℤ → List ℤ → List ℤ
    over_request [] vs = vs
    over_request (x ∷ xs) [] = x ∷ over_request xs []
    over_request (x ∷ xs) (v ∷ vs) = v ∷ over_request xs vs

    unfoldable pub print_static : List ℤ → Option (List ℤ × List ℤ) → Io os.World Printed
    unfolding print_pairs first_pairs over_request
    print_static sent none = pure not_decoded
    print_static sent (some (vs, us)) =
        print_pairs (length vs) (length us) (first_pairs 2 (over_request sent vs) us)

    unfoldable pub static_turn : Io os.World Printed
    unfolding ask_two exchange print_static
    static_turn = ask_two λ input1 input2.
        exchange s (λ bs. print_static (pos input1 ∷ pos input2 ∷ []) (codec.decode_response bs))
          (codec.encode_sequence line_len (pos input1 ∷ pos input2 ∷ []))

    unfoldable pub static_client : ℕ → Io os.World (List Printed)
    unfolding static_turn client_loop
    static_client turns = client_loop static_turn turns
