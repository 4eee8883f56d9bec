-- ===== src/Square/Tcp/Turn.antt =====
-- A turn of the TCP client against the bytes that the connection delivers.
use dp.Base.{
  ℕ, ◌-◌, ◌+◌, ◌*◌, ◌%◌, ◌^◌, ◌<◌, ◌≡◌, refl, sym, ap, ◌∙◌, arith, some, List, [], ◌∷◌, ◌++◌,
  length, take, take-append,
}
use mathlib.Core.Option.{some-injective}
use dp.Base.Int.{pos, hyper_limit}
use dp.Os.Calls.{Fd, Os}
use dp.Os.Io.{ok}
use dp.Os.Net.{Net, consume, emit, shut}
use dp.Os.Net.Laws.{incoming-emit}
use dp.Os.Reliable.{Reliable}
use dp.Sockwrap.Exact.Writing.{writen_or_exit-Gave}
use dp.Sockwrap.Exact.Reading.{readn_or_exit-Took}
use dp.Sockwrap.Setup.{Network}
use dp.Sockwrap.Wrap.Laws.{close-Reaches}
use dp.Square.Xdr.{SequenceCodec, SequenceLaws}
use dp.Square.Udp.{Address}
use dp.Square.Client.{shown_sequence, first_pairs, print_pairs, print_sequences, uint_limit}
use dp.Square.Client.Exchange.{small_root}
use dp.Square.Tcp.{print_response, converse}

module _ (os : Os) (r : Reliable os) (net : Network os.World) (codec : SequenceCodec)
    (laws : SequenceLaws codec (uint_limit - 1)) (fuel : ℕ) (saddr : Address) where
  -- The bytes of an answer of two numbers and their squares are printed.
  print_response-shows :
      (x y : ℕ) (bs : List ℕ) (w : os.World)
      → x * x < hyper_limit
      → y * y < hyper_limit
      → codec.encode_response 40 (pos x ∷ pos y ∷ []) (pos (x * x) ∷ pos (y * y) ∷ []) ≡ some bs
      → (length bs ≡ 40)
        × (print_response os net codec fuel saddr bs w
            ≡ (ok (shown_sequence 2 2 ((x, x * x % 2 ^ 32) ∷ (y, y * y % 2 ^ 32) ∷ [])), w))
  unfolding print_response print_sequences print_pairs first_pairs
  print_response-shows x y bs w hx hy sent =
      let nx = small_root x hx in
      let ny = small_root y hy in
      let (bs', encoded, len, decoded) =
        laws.response_sent 40 (pos x ∷ pos y ∷ []) (pos (x * x) ∷ pos (y * y) ∷ [])
          (omega arith, (omega arith, tt)) (hx, (hy, tt)) (omega arith) (omega arith)
          (omega arith) in
      let same : bs' ≡ bs = some-injective _ _ (sym encoded ∙ sent) in
      let size : length bs ≡ 40 = ap length (sym same) ∙ len in
      let back = ap codec.decode_response (sym same) ∙ decoded in
      let lowx : x % 2 ^ 32 ≡ x = omega arith in
      let lowy : y % 2 ^ 32 ≡ y = omega arith in (size, rw (size, back, lowx, lowy) refl)

  -- On a machine that keeps the promises of `Reliable`, with fuel enough: if the connection delivers
  -- the response to two numbers whose squares fit, the client writes its request once and whole,
  -- takes the 40 bytes of the response off the stream, prints the numbers and the low 32 bits of
  -- their squares, and closes the connection.
  pub converse-shows :
      (s : Fd) (x y : ℕ) (request response rest : List ℕ) (w : os.World)
      → x * x < hyper_limit
      → y * y < hyper_limit
      → codec.encode_response 40 (pos x ∷ pos y ∷ []) (pos (x * x) ∷ pos (y * y) ∷ [])
        ≡ some response
      → (r.view w).incoming s ≡ response ++ rest
      → length request + r.patience w < fuel
      → 40 + r.patience w < fuel
      → (w' : os.World) × (converse os net codec fuel saddr s (some request) w
          ≡ (ok (shown_sequence 2 2 ((x, x * x % 2 ^ 32) ∷ (y, y * y % 2 ^ 32) ∷ [])), w'))
        × (r.view w' ≡ shut s (consume s 40 (emit s request (r.view w))))
  unfolding converse
  converse-shows s x y request response rest w hx hy sent stream enough enough' =
      let (w1, run1, m1, c1) = writen_or_exit-Gave os r fuel s request w enough in
      let (w2, run2, m2, c2) = readn_or_exit-Took os r fuel s 40 w1 (omega arith) in
      let (size, printed) = print_response-shows x y response w2 hx hy sent in
      let here : (r.view w1).incoming s ≡ response ++ rest =
        ap (λ (t : Net). t.incoming s) m1 ∙ incoming-emit s s request (r.view w) ∙ stream in
      let front : take 40 ((r.view w1).incoming s) ≡ response =
        ap (take 40) here
        ∙ ap (λ n. take n (response ++ rest)) (sym size)
        ∙ take-append response rest in
      let (w3, run3, m3, c3) = close-Reaches os r s w2 in
      (w3, rw (run1, run2, front, printed, run3) refl, m3 ∙ ap (shut s) (m2 ∙ ap (consume s 40) m1))
