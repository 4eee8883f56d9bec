-- ===== src/Square/Client/Exchange.antt =====
-- What the client of 1-SquareSimple prints of the answer of the server.
use dp.Base.{
  ℕ, ◌*◌, ◌%◌, ◌^◌, ◌≤◌, ◌<◌, ◌≡◌, ◌↔◌, refl, sym, ap, ◌∙◌, arith, Option, none, some, List, [],
  ◌∷◌, ◌++◌, length, ==_self,
}
use mathlib.Core.Option.{some-injective}
use native.Mathlib.Nat.{mul-le-mul}
use native.Mathlib.Decide.{dec_lt}
use dp.Base.Int.{pos, hyper_limit}
use dp.Os.Calls.{Fd, Os}
use dp.Os.Io.{ok}
use dp.Square.Xdr.{HyperCodec, HyperLaws}
use dp.Square.Udp.{Address, Datagram, Udp, UdpLaws}
use dp.Square.Simple.{buf_len, check_sent, send_reply, reply_square, answer_request, service}
use dp.Square.Simple.Replies.{square_fits}
use dp.SumServer.Decimal.{number, c_string, scan_unsigned}
use dp.Square.Client.{
  line_len, uint_limit, timeout, shown, use_number, use_line, ask_number, use_answer, after_wait,
  after_send, exchange, print_pair, decode_and_print, send_number, simple_turn,
}

last_of : {A : Type 0} → List A → Option A
last_of [] = none
last_of (x ∷ []) = some x
last_of (x ∷ y ∷ xs) = last_of (y ∷ xs)

last_of-append : {A : Type 0} (xs : List A) (a : A) → last_of (xs ++ (a ∷ [])) ≡ some a
unfolding last_of
last_of-append [] a = refl
last_of-append (x ∷ []) a = refl
last_of-append (x ∷ y ∷ xs) a = last_of-append (y ∷ xs) a

append-injective : {A : Type 0} (xs : List A) (a b : A) → xs ++ (a ∷ []) ≡ xs ++ (b ∷ []) → a ≡ b
append-injective xs a b e =
    some-injective _ _ (sym (last_of-append xs a) ∙ ap last_of e ∙ last_of-append xs b)

-- The square of an unsigned number is printed whole just if it has 32 bits.
square_shown : (x : ℕ) → (x * x % 2 ^ 32 ≡ x * x) ↔ (x < 2 ^ 16)
square_shown x = (
  λ whole. elim (dec_lt x 65536) [
    | yes small ↦ small
    | no large ↦
        let wide : 65536 * 65536 ≤ x * x =
          mul-le-mul {n₁ = 65536} {m₁ = 65536} (omega arith) (omega arith) in
        absurd (omega arith)
  ],
  λ small.
      let narrow : x * x ≤ 65535 * 65535 =
        mul-le-mul {n₂ = 65535} {m₂ = 65535} (omega arith) (omega arith) in
      omega arith,
)

pub small_root : (x : ℕ) → x * x < hyper_limit → x < uint_limit
small_root x h = elim (dec_lt x uint_limit) [
  | yes small ↦ small
  | no large ↦
      let wide : uint_limit * uint_limit ≤ x * x =
        mul-le-mul {n₁ = uint_limit} {m₁ = uint_limit} (omega arith) (omega arith) in
      absurd (omega arith)
]

module _ {W : Type 0} (codec : HyperCodec) (laws : HyperLaws codec) (udp : Udp W) (s : Fd)
    (net : UdpLaws udp s) where
  -- The datagram that the server sends for an encoded number.
  reply_decodes :
      (x : ℕ) (request : List ℕ) (from : Address) (e : Datagram) (v : W)
      → codec.decode_hyper request ≡ some (pos x)
      → x * x < hyper_limit
      → net.gone (service codec udp s (record { bytes = request; peer = from }) v).1
        ≡ net.gone v ++ (e ∷ [])
      → codec.decode_pair e.bytes ≡ some (pos x, pos (x * x))
  unfolding service answer_request reply_square send_reply check_sent
  reply_decodes x request from e v decoded small sent =
      let (bs, encoded, len, back) =
        laws.pair_sent buf_len (pos x) (pos (x * x)) (laws.hyper_range request (pos x) decoded)
          small (omega arith) in
      let d : Datagram = record { bytes = bs; peer = from } in
      let (whole, same, more) = net.sendto_whole d v in
      let run : (service codec udp s (record { bytes = request; peer = from }) v).1
          ≡ (udp.sendto s d v).1 =
        rw (decoded, square_fits (pos x) small, encoded, whole) refl in
      let which : d ≡ e =
        append-injective (net.gone v) d e (sym more ∙ sym (ap net.gone run) ∙ sent) in
      ap (λ (t : Datagram). codec.decode_pair t.bytes) (sym which) ∙ back

  -- A number is typed, the request reaches the server whole, and the datagram that the server sends
  -- for it reaches the client: the client prints the number and the low 32 bits of its square, if
  -- the square fits a hyper. They are the square just if the number has 16 bits.
  pub simple_turn-shows :
      (os : Os) (client : Fd) (x : ℕ) (line rest request : List ℕ) (from : Address) (e : Datagram)
      (w w1 w2 w3 w4 : os.World) (v : W)
      → os.fgets line_len w ≡ (some line, w1)
      → scan_unsigned uint_limit (c_string line) ≡ number x rest
      → x * x < hyper_limit
      → codec.encode_hyper line_len (pos x) ≡ some request
      → os.send client request 0 w1 ≡ (some (length request), w2)
      → net.gone (service codec udp s (record { bytes = request; peer = from }) v).1
        ≡ net.gone v ++ (e ∷ [])
      → os.select (client ∷ []) (some timeout) w2 ≡ (some (client ∷ []), w3)
      → os.recv client 511 0 w3 ≡ (some e.bytes, w4)
      → (simple_turn os codec client w ≡ (ok (shown x (x * x % 2 ^ 32)), w4))
        × ((x * x % 2 ^ 32 ≡ x * x) ↔ (x < 2 ^ 16))
  unfolding simple_turn ask_number use_line use_number send_number exchange after_send after_wait
      use_answer decode_and_print print_pair
  simple_turn-shows os client x line rest request from e w w1 w2 w3 w4 v typed scanned small encoded
        sent replied ready arrived =
      let narrow = small_root x small in
      let (bs, written, len, back) = laws.hyper_sent line_len (pos x) (omega arith) (omega arith) in
      let same : bs ≡ request = some-injective _ _ (sym written ∙ encoded) in
      let decoded =
        reply_decodes x request from e v (ap codec.decode_hyper (sym same) ∙ back) small replied in
      let low : x % 2 ^ 32 ≡ x = omega arith in
      (
        rw (typed, scanned, encoded, sent, ==_self (length request), ready, arrived, decoded, low)
            refl,
        square_shown x,
      )
