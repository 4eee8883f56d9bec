-- ===== src/Sockwrap/Names/Runs.antt =====
-- The text of an address.
use dp.Base.{ℕ, ◌≡◌, arith, false, some, List, [], ◌∷◌, ◌++◌}
use dp.Os.Io.{ok}
use dp.SumServer.Decimal.{decimal, decimal_digits}
use dp.Sockwrap.Names.{ntop_name, unknown_af, comma_len, inet, inet6, sock_ntop}
use dp.Sockwrap.Names.Texts.{sock_ntop-whole}

-- "1.2.3.4" and "::1"
abbrev dotted : List ℕ
dotted = b'1' ∷ b'.' ∷ b'2' ∷ b'.' ∷ b'3' ∷ b'.' ∷ b'4' ∷ []

abbrev colons : List ℕ
colons = b':' ∷ b':' ∷ b'1' ∷ []

-- The state of the machine plays no part.
abbrev zero_state : ℕ
zero_state = 0

sock_ntop-whole_example :
    (sock_ntop (λ addr. some dotted) (λ addr. some colons) false (inet [] 2050) 16 zero_state
      ≡ (ok (some (dotted ++ (b':' ∷ b'2' ∷ b'0' ∷ b'5' ∷ b'0' ∷ []))), zero_state))
    × (sock_ntop (λ addr. some dotted) (λ addr. some colons) false (inet6 [] 2050) 16 zero_state ≡ (
      ok (
          some (
            ntop_name
            ++ (unknown_af ++ ((b'1' ∷ b'0' ∷ []) ++ (comma_len ++ (b'1' ∷ b'6' ∷ [])))))),
      zero_state,
    ))
unfolding decimal decimal_digits
sock_ntop-whole_example =
    sock_ntop-whole zero_state 2050 (omega arith) (λ addr. some dotted) (λ addr. some colons) false
      [] 16 (omega arith) (omega arith) (omega arith)
