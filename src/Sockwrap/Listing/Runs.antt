-- ===== src/Sockwrap/Listing/Runs.antt =====
-- A line of `Print_getaddrinfo_list`, and one of `showAddr`.
use dp.Base.{ℕ, ◌≡◌, refl, none, some, List, [], ◌∷◌, ◌++◌}
use dp.Errlib.Message.{append_in}
use dp.Os.Io.{ok}
use dp.SumServer.Decimal.{decimal, decimal_digits}
use dp.Sockwrap.Listing.{
  Entry, inet_label, stream_label, proto_label, unknown_end, family_text, socktype_text,
  protocol_text, append_all, address_text, text_or_quit, line_or_stop, entry_line, entry_lines,
  show_addr,
}

abbrev local_host : List ℕ
local_host = b'1' ∷ b'2' ∷ b'7' ∷ b'.' ∷ b'0' ∷ b'.' ∷ b'0' ∷ b'.' ∷ b'1' ∷ []

-- TCP over IPv4, with a protocol that has no name here.
abbrev entry : Entry
entry = record {
  ai_family = 2;
  ai_socktype = 1;
  ai_protocol = 132;
  addr = 127 ∷ 0 ∷ 0 ∷ 1 ∷ [];
  ai_canonname = none;
}

one_line : entry_lines {W = ℕ} (λ addr. some local_host) (λ addr. none) (entry ∷ []) 0 ≡ (
  ok (
      (inet_label
        ++ (stream_label
            ++ (proto_label ++ (b'1' ∷ b'3' ∷ b'2' ∷ []) ++ unknown_end)
            ++ local_host
            ++ (b' ' ∷ [])))
      ∷ []),
  0,
)
unfolding entry_lines entry_line line_or_stop address_text text_or_quit append_all append_in
    family_text socktype_text protocol_text decimal decimal_digits
one_line = refl

shown : show_addr [] local_host 80 ≡ (b' ' ∷ (local_host ++ (b'!' ∷ b'8' ∷ b'0' ∷ 10 ∷ [])))
unfolding show_addr decimal decimal_digits
shown = refl
