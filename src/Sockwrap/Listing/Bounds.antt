-- ===== src/Sockwrap/Listing/Bounds.antt =====
-- The lines of `Print_getaddrinfo_list` fit their array.
use dp.Base.{
  ℕ, zero, suc, ◌+◌, ◌≤◌, ◌<◌, ◌≡◌, refl, ap, ◌∙◌, sym, ◌/◌, ◌%◌, arith, Option, none, some, List,
  [], ◌∷◌, ◌++◌, append_assoc, append-nil, length, length-append,
}
use dp.Os.Io.{ok}
use dp.SumServer.Decimal.{decimal, decimal_digits}
use dp.Sockwrap.Names.Texts.{AtMost, append_in_room}
use dp.Sockwrap.Listing.{
  Entry, max_str, family_text, socktype_text, protocol_text, append_all, parts, address_text,
  line_or_stop, entry_line, entry_lines, unknown_end, canonname_parts, fam_label, sock_label,
  proto_label,
}

-- The parts of a text, put together.
abbrev pub joined : List (List ℕ) → List ℕ
joined [] = []
joined (text ∷ texts) = text ++ joined texts

append_all-joined :
    (info : List ℕ) (texts : List (List ℕ))
    → length info + length (joined texts) < max_str
    → append_all info texts ≡ some (info ++ joined texts)
unfolding append_all
append_all-joined info [] h = ap some (sym (append-nil info))
append_all-joined info (text ∷ texts) h =
    rw
      (
        append_in_room max_str info text (omega (arith, h, length-append text (joined texts))),
        append_all,
      )
      (append_all-joined (info ++ text) texts
          (omega (arith, h, length-append text (joined texts), length-append info text))
        ∙ ap some (append_assoc info text (joined texts)))

length-decimal_digits : (more n : ℕ) → length (decimal_digits more n) ≤ suc more
unfolding decimal_digits
length-decimal_digits zero n = omega arith
length-decimal_digits (suc more) n = ground (
  arith,
  length-append (decimal_digits more (n / 10)) ((48 + n % 10) ∷ []),
  length-decimal_digits more (n / 10),
)

-- A number between a label and its end.
length-labelled :
    (label : List ℕ) (n : ℕ) → length (label ++ (decimal n ++ unknown_end)) ≤ length label + 13
unfolding decimal
length-labelled label n = omega (
  arith,
  length-append label (decimal_digits 9 n ++ unknown_end),
  length-append (decimal_digits 9 n) unknown_end,
  length-decimal_digits 9 n,
)

length-family_text : (n : ℕ) → length (family_text n) ≤ 20
unfolding family_text
length-family_text n = ground (arith, length-labelled fam_label n)

length-socktype_text : (n : ℕ) → length (socktype_text n) ≤ 20
unfolding socktype_text
length-socktype_text n = ground (arith, length-labelled sock_label n)

length-protocol_text : (n : ℕ) → length (protocol_text n) ≤ 20
unfolding protocol_text
length-protocol_text n = ground (arith, length-labelled proto_label n)

length-canonname :
    (name : Option (List ℕ)) → AtMost 900 name → length (joined (canonname_parts name)) ≤ 900
length-canonname none h = omega arith
length-canonname (some name) h = omega (arith, h, length-append name ((b' ' ∷ []) ++ []))

length-parts :
    (p : Entry) (text : List ℕ)
    → length text < 46
    → AtMost 900 p.ai_canonname
    → length (joined (parts p text)) < max_str
length-parts p text short h = omega (
  arith,
  length-append (family_text p.ai_family) (
      socktype_text p.ai_socktype
      ++ (protocol_text p.ai_protocol
          ++ (text ++ (b' ' ∷ joined (canonname_parts p.ai_canonname))))),
  length-append (socktype_text p.ai_socktype)
      (protocol_text p.ai_protocol ++ (text ++ (b' ' ∷ joined (canonname_parts p.ai_canonname)))),
  length-append (protocol_text p.ai_protocol)
      (text ++ (b' ' ∷ joined (canonname_parts p.ai_canonname))),
  length-append text (b' ' ∷ joined (canonname_parts p.ai_canonname)),
  length-family_text p.ai_family,
  length-socktype_text p.ai_socktype,
  length-protocol_text p.ai_protocol,
  length-canonname p.ai_canonname h,
)

append_all-parts :
    (p : Entry) (text : List ℕ)
    → length text < 46
    → AtMost 900 p.ai_canonname
    → append_all [] (parts p text) ≡ some (joined (parts p text))
append_all-parts p text short h =
    append_all-joined [] (parts p text) (omega (arith, length-parts p text short h))

module _ {W : Type 0} (ntop ntop6 : List ℕ → Option (List ℕ)) (text_of : Entry → List ℕ)
    (w : W) where
  -- The texts of all addresses can be had and fit INET6_ADDRSTRLEN, and the names leave room.
  abbrev pub AllShort : List Entry → Type 0
  AllShort [] = Unit
  AllShort (p ∷ ps) =
      (address_text {W = W} ntop ntop6 p w ≡ (ok (text_of p), w))
      × (length (text_of p) < 46)
      × AtMost 900 p.ai_canonname
      × AllShort ps

  abbrev pub all_lines : List Entry → List (List ℕ)
  all_lines [] = []
  all_lines (p ∷ ps) = joined (parts p (text_of p)) ∷ all_lines ps

  -- If `inet_ntop` gives a text of at most 45 bytes for the address of each result, and no canonical
  -- name has more than 899 bytes, `Print_getaddrinfo_list` stores nothing past the end of its array,
  -- and prints for each result the text of all its parts.
  pub entry_lines-whole :
      (ps : List Entry) → AllShort ps → entry_lines ntop ntop6 ps w ≡ (ok (all_lines ps), w)
  unfolding entry_lines entry_line line_or_stop
  entry_lines-whole [] h = refl
  entry_lines-whole (p ∷ ps) (found, short, name, h) =
      rw (found, append_all-parts p (text_of p) short name, entry_lines-whole ps h) refl
