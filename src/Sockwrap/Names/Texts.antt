-- ===== src/Sockwrap/Names/Texts.antt =====
-- The texts of addresses of the internet fit their arrays.
use dp.Base.{
  ℕ, zero, suc, ◌+◌, ◌*◌, ◌/◌, ◌%◌, ◌≤◌, ◌<◌, ◌≡◌, refl, arith, Bool, true, false, ap, ◌^◌, Option,
  none, some, List, [], ◌∷◌, ◌++◌, length, take_all, lt→ltb, le→not_ltb, length-append,
  append_assoc, ◌==◌, if◌then◌else◌, Bool-cases, inl, inr,
}
use native.Mathlib.Decide.{dec_lt}
use dp.Os.Io.{ok}
use dp.Errlib.Message.{print_into, append_in}
use dp.SumServer.Decimal.{decimal_digits, decimal}
use dp.Sockwrap.Names.{
  inet, inet6, port_text, stored, inet_text, inet6_text, sock_ntop, ntop_name, unknown_af, af_inet6,
  comma_len, unknown_text,
}

-- Ten to the number of digits.
abbrev limit : ℕ → ℕ
limit zero = 10
limit (suc k) = 10 * limit k

pub length-decimal_digits_below :
    (k more n : ℕ) → n < limit k → length (decimal_digits more n) ≤ suc k
unfolding decimal_digits
length-decimal_digits_below k zero n h = omega arith
length-decimal_digits_below zero (suc more) n h = rw (lt→ltb n 10 h) (omega arith)
length-decimal_digits_below (suc k) (suc more) n h = elim (dec_lt n 10) [
  | yes p ↦ rw (lt→ltb n 10 p) (omega arith)
  | no p ↦ rw (le→not_ltb n 10 (omega arith)) (
      omega (
        arith,
        length-append (decimal_digits more (n / 10)) ((48 + n % 10) ∷ []),
        length-decimal_digits_below k more (n / 10) (omega arith),
      ))
]

length-decimal_port : (port : ℕ) → port < 65536 → length (decimal port) ≤ 5
unfolding decimal
length-decimal_port port h = length-decimal_digits_below 4 9 port (omega arith)

length-decimal_ten : (n : ℕ) → n < 2 ^ 31 → length (decimal n) ≤ 10
unfolding decimal
length-decimal_ten n h = length-decimal_digits_below 9 9 n (omega arith)

pub append_in_room :
    (size : ℕ) (text more : List ℕ)
    → length text + length more + 1 ≤ size
    → append_in size text more ≡ some (text ++ more)
unfolding append_in
append_in_room size text more h = ground (arith, h)

-- `portstr` holds a lead of one or two bytes and any port.
port_text_whole :
    (lead : List ℕ) (port : ℕ)
    → port < 65536
    → length lead ≤ 2
    → port_text lead port ≡ lead ++ decimal port
unfolding port_text print_into
port_text_whole lead port h short =
    take_all 7 (lead ++ decimal port)
      (omega (arith, length-append lead (decimal port), length-decimal_port port h))

-- The text of an address with its port behind it, unless that is 0.
abbrev pub with_port : ℕ → List ℕ → List ℕ → List ℕ
with_port port text ported = if port == 0 then text else ported ++ decimal port

-- What `inet_ntop` promises of its results, INET_ADDRSTRLEN and INET6_ADDRSTRLEN: the terminator is
-- one of their bytes.
abbrev pub AtMost : ℕ → Option (List ℕ) → Type 0
AtMost size none = Unit
AtMost size (some text) = length text < size

abbrev pub printed : ℕ → (List ℕ → List ℕ) → Option (List ℕ) → Option (List ℕ)
printed port lead none = none
printed port lead (some text) = some (with_port port text (lead text))

unknown_short :
    (salen : ℕ)
    → salen < 2 ^ 31
    → length (ntop_name ++ (unknown_af ++ (decimal af_inet6 ++ (comma_len ++ decimal salen)))) ≤ 127
unknown_short salen range = omega (
  arith,
  length-append (decimal af_inet6) (comma_len ++ decimal salen),
  length-append comma_len (decimal salen),
  length-decimal_ten af_inet6 (omega arith),
  length-decimal_ten salen range,
)

module _ {W : Type 0} (w : W) (port : ℕ) (small : port < 65536) where
  stored_whole :
      (text lead : List ℕ)
      → length text < 100
      → length lead ≤ 2
      → stored (append_in 128 text (port_text lead port)) w
        ≡ (ok (some ((text ++ lead) ++ decimal port)), w)
  unfolding stored
  stored_whole text lead short two =
      rw
        (
          port_text_whole lead port small two,
          append_in_room 128 text (lead ++ decimal port)
              (omega (arith, length-append lead (decimal port), length-decimal_port port small)),
          append_assoc text lead (decimal port),
        )
        refl

  inet_text_whole :
      (o : Option (List ℕ))
      → AtMost 16 o
      → inet_text port o w ≡ (ok (printed port (λ t. t ++ (b':' ∷ [])) o), w)
  unfolding inet_text
  inet_text_whole none h = refl
  inet_text_whole (some text) h = elim (Bool-cases (port == 0)) [
    | inl e ↦ rw e refl
    | inr e ↦ rw e (stored_whole text (b':' ∷ []) (omega (arith, h)) (omega arith))
  ]

  inet6_text_whole :
      (o : Option (List ℕ))
      → AtMost 46 o
      → inet6_text port o w ≡ (ok (printed port (λ t. (b'[' ∷ t) ++ (b']' ∷ b':' ∷ [])) o), w)
  unfolding inet6_text
  inet6_text_whole none h = refl
  inet6_text_whole (some text) h = elim (Bool-cases (port == 0)) [
    | inl e ↦ rw e refl
    | inr e ↦ rw e (stored_whole (b'[' ∷ text) (b']' ∷ b':' ∷ []) (omega (arith, h)) (omega arith))
  ]

  -- The text of an address of IPv6, with and without the code that IPV6 switches on.
  abbrev pub ntop6_text : Bool → Option (List ℕ) → ℕ → Option (List ℕ)
  ntop6_text true text salen = printed port (λ t. (b'[' ∷ t) ++ (b']' ∷ b':' ∷ [])) text
  ntop6_text false text salen =
      some (ntop_name ++ (unknown_af ++ (decimal af_inet6 ++ (comma_len ++ decimal salen))))

  inet6_whole :
      (ntop ntop6 : List ℕ → Option (List ℕ)) (ipv6 : Bool) (addr : List ℕ) (salen : ℕ)
      → AtMost 46 (ntop6 addr)
      → salen < 2 ^ 31
      → sock_ntop ntop ntop6 ipv6 (inet6 addr port) salen w
        ≡ (ok (ntop6_text ipv6 (ntop6 addr) salen), w)
  unfolding sock_ntop unknown_text print_into
  inet6_whole ntop ntop6 true addr salen h6 range = inet6_text_whole (ntop6 addr) h6
  inet6_whole ntop ntop6 false addr salen h6 range =
      let text = ntop_name ++ (unknown_af ++ (decimal af_inet6 ++ (comma_len ++ decimal salen))) in
      ap (λ t. (ok (some t), w)) (take_all 127 text (unknown_short salen range))

  -- For any port of 16 bits and any length that is an `int`, if `inet_ntop` keeps to the documented lengths
  -- of its texts: `sock_ntop` stores nothing past the end of its arrays, and cuts nothing off. For
  -- IPv4 it gives the address, a colon and the port, or the address alone if the port is 0. For IPv6,
  -- in a program that is compiled with IPV6, it gives the address in brackets, a colon and the port,
  -- or the address alone if the port is 0; in one that is compiled without, a text that says that the
  -- family is unknown, with its number and the length. There is no text just if `inet_ntop` is
  -- called and gives none.
  pub sock_ntop-whole :
      (ntop ntop6 : List ℕ → Option (List ℕ)) (ipv6 : Bool) (addr : List ℕ) (salen : ℕ)
      → AtMost 16 (ntop addr)
      → AtMost 46 (ntop6 addr)
      → salen < 2 ^ 31
      → (sock_ntop ntop ntop6 ipv6 (inet addr port) salen w
          ≡ (ok (printed port (λ t. t ++ (b':' ∷ [])) (ntop addr)), w))
        × (sock_ntop ntop ntop6 ipv6 (inet6 addr port) salen w
            ≡ (ok (ntop6_text ipv6 (ntop6 addr) salen), w))
  unfolding sock_ntop
  sock_ntop-whole ntop ntop6 ipv6 addr salen h h6 range =
      (inet_text_whole (ntop addr) h, inet6_whole ntop ntop6 ipv6 addr salen h6 range)
