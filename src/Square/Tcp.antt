-- ===== src/Square/Tcp.antt =====
-- 5-SquareSequencesTCP: a server of a pool of processes, and its client.
pub mod Turn
pub mod Pool
pub mod Memory
use dp.Base.{
  ℕ, zero, suc, ◌*◌, Bool, true, false, Option, none, some, List, [], ◌∷◌, length, ◌==◌,
  if◌then◌else◌,
}
use dp.Base.Int.{ℤ, pos}
use dp.Os.Calls.{Fd, Os}
use dp.Os.Io.{Io, ok, undefined, pure, quit, stop, call, ◌>>=◌, ◌>>◌}
use dp.Errlib.{err_sys}
use dp.Sockwrap.Wrap
use dp.Sockwrap.Setup
use dp.Sockwrap.Setup.{Network}
use dp.Sockwrap.Exact.{writen_or_exit, readn_or_exit}
use dp.Square.Xdr.{SequenceCodec}
use dp.Square.Udp.{Address, Block, Heap}
use dp.Square.Simple.{af_inet, sockaddr_in_size}
use dp.Square.Sequences.{squares, release}
use dp.Square.Client.{
  line_len, Printed, not_received, not_decoded, ask_two, print_sequences, client_loop,
}

-- A stream of <stdio.h>, and XDR on it: `xdr_xdrhypersequence` allocates the block of the numbers
-- that it reads.
abbrev pub Stream : Type 0
Stream = ℕ

pub record Stdio (W : Type 0) : Type 0 where
  pub fdopen_read : Fd → W → Option Stream × W
  pub fdopen_write : Fd → W → Option Stream × W
  pub read_sequence : Stream → W → Option (Block × List ℤ) × W
  pub write_response : Stream → List ℤ → List ℤ → W → Bool × W
  pub flush : Stream → W → Unit {0} × W

module _ {W : Type 0} (io : Stdio W) (heap : Heap W) where
  unfoldable pub free_all : Block → Block → Block → ℕ → Io W ℕ
  unfolding release
  free_all a b c result = do release heap a; release heap b; release heap c; pure result

  -- The result -1 of `service` is 1 here.
  unfoldable pub after_write : Stream → Block → Block → Block → Bool → Io W ℕ
  unfolding free_all
  after_write out a b c false = free_all a b c 1
  after_write out a b c true = call (io.flush out) >> free_all a b c 0

  unfoldable pub write_squares : Stream → Block → Block → Block → List ℤ → Option (List ℤ) → Io W ℕ
  unfolding after_write
  write_squares out a b c req none = stop undefined
  write_squares out a b c req (some res) =
      call (io.write_response out req res) >>= after_write out a b c

  unfoldable pub with_third : Stream → Block → Block → List ℤ → Option Block → Io W ℕ
  unfolding write_squares squares
  with_third out a b req none = do release heap a; release heap b; pure 1
  with_third out a b req (some c) = write_squares out a b c req (squares req)

  unfoldable pub with_block : Stream → Block → List ℤ → Option Block → Io W ℕ
  unfolding with_third
  with_block out a req none = do release heap a; pure 1
  with_block out a req (some b) = call (heap.malloc (length req * 8)) >>= with_third out a b req

  unfoldable pub after_read : Stream → Option (Block × List ℤ) → Io W ℕ
  unfolding with_block
  after_read out none = pure 1
  after_read out (some (a, req)) = call (heap.malloc (length req * 8)) >>= with_block out a req

  unfoldable pub with_output : Stream → Option Stream → Io W ℕ
  unfolding after_read
  with_output input none = err_sys
  with_output input (some out) = call (io.read_sequence input) >>= after_read out

  unfoldable pub with_input : Fd → Option Stream → Io W ℕ
  unfolding with_output
  with_input s none = err_sys
  with_input s (some input) = call (io.fdopen_write s) >>= with_output input

  -- `service`, which closes neither stream
  unfoldable pub tcp_service : Fd → Io W ℕ
  unfolding with_input
  tcp_service s = call (io.fdopen_read s) >>= with_input s

module _ (os : Os) (io : Stdio os.World) (heap : Heap os.World) (fuel : ℕ) (sock : Fd) where
  -- `for (;;)` of `child`, for a number of connections
  unfoldable pub child : ℕ → Io os.World (Unit {0})
  unfolding tcp_service
  child zero w = (ok tt, w)
  child (suc clients) w =
      (Wrap.accept os fuel sock >>= λ connfd.
      tcp_service io heap connfd >> Wrap.close os connfd >> child clients)
        w

module _ (os : Os) (net : Network os.World) (codec : SequenceCodec) (fuel : ℕ)
    (saddr : Address) where
  -- The response to two numbers has 2*(4+8*2) bytes.
  abbrev pub response_bytes : ℕ
  response_bytes = 40

  unfoldable pub print_response : List ℕ → Io os.World Printed
  unfolding print_sequences
  print_response bs =
      if length bs == response_bytes
      then print_sequences os 2 (codec.decode_response bs)
      else pure not_received

  unfoldable pub converse : Fd → Option (List ℕ) → Io os.World Printed
  unfolding print_response
  converse s none = quit 255
  converse s (some request) = do
    writen_or_exit os fuel s request
    response ← readn_or_exit os fuel s response_bytes
    printed ← print_response response
    Wrap.close os s
    pure printed

  unfoldable pub send_two : ℕ → ℕ → Io os.World Printed
  unfolding converse
  send_two input1 input2 = do
    s ← Setup.socket net af_inet 1 0
    Setup.connect net s saddr sockaddr_in_size
    converse s (codec.encode_sequence line_len (pos input1 ∷ pos input2 ∷ []))

  unfoldable pub tcp_turn : Io os.World Printed
  unfolding ask_two send_two
  tcp_turn = ask_two os λ input1 input2. send_two input1 input2

  unfoldable pub tcp_client : ℕ → Io os.World (List Printed)
  unfolding tcp_turn client_loop
  tcp_client turns = client_loop os tcp_turn turns
