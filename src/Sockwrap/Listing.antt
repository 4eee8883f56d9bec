-- ===== src/Sockwrap/Listing.antt =====
-- `Print_getaddrinfo_list` and `showAddr` of sockwrap.c: the lines that they print.
pub mod Bounds
mod Runs
use dp.Base.{ℕ, Option, none, some, List, [], ◌∷◌, ◌++◌, ◌==◌, if◌then◌else◌}
use dp.Os.Io.{Io, undefined, pure, stop, ◌>>=◌}
use dp.Errlib.{err_quit}
use dp.Errlib.Message.{append_in}
use dp.SumServer.Decimal.{decimal}
use dp.Sockwrap.Names.{af_inet6}

-- MAXSTR
abbrev pub max_str : ℕ
max_str = 1024

-- AF_INET
abbrev pub family_inet : ℕ
family_inet = 2

-- "AF_INET  "
abbrev pub inet_label : List ℕ
inet_label = b'A' ∷ b'F' ∷ b'_' ∷ b'I' ∷ b'N' ∷ b'E' ∷ b'T' ∷ b' ' ∷ b' ' ∷ []

-- "AF_INET6 "
abbrev pub inet6_label : List ℕ
inet6_label = b'A' ∷ b'F' ∷ b'_' ∷ b'I' ∷ b'N' ∷ b'E' ∷ b'T' ∷ b'6' ∷ b' ' ∷ []

-- "(fam="
abbrev pub fam_label : List ℕ
fam_label = b'(' ∷ b'f' ∷ b'a' ∷ b'm' ∷ b'=' ∷ []

-- "SOCK_STREAM "
abbrev pub stream_label : List ℕ
stream_label =
    b'S' ∷ b'O' ∷ b'C' ∷ b'K' ∷ b'_' ∷ b'S' ∷ b'T' ∷ b'R' ∷ b'E' ∷ b'A' ∷ b'M' ∷ b' ' ∷ []

-- "SOCK_DGRAM  "
abbrev pub dgram_label : List ℕ
dgram_label = b'S' ∷ b'O' ∷ b'C' ∷ b'K' ∷ b'_' ∷ b'D' ∷ b'G' ∷ b'R' ∷ b'A' ∷ b'M' ∷ b' ' ∷ b' ' ∷ []

-- "SOCK_RAW    "
abbrev pub raw_label : List ℕ
raw_label = b'S' ∷ b'O' ∷ b'C' ∷ b'K' ∷ b'_' ∷ b'R' ∷ b'A' ∷ b'W' ∷ b' ' ∷ b' ' ∷ b' ' ∷ b' ' ∷ []

-- "(sock="
abbrev pub sock_label : List ℕ
sock_label = b'(' ∷ b's' ∷ b'o' ∷ b'c' ∷ b'k' ∷ b'=' ∷ []

-- "IPPROTO_UDP "
abbrev pub udp_label : List ℕ
udp_label = b'I' ∷ b'P' ∷ b'P' ∷ b'R' ∷ b'O' ∷ b'T' ∷ b'O' ∷ b'_' ∷ b'U' ∷ b'D' ∷ b'P' ∷ b' ' ∷ []

-- "IPPROTO_TCP "
abbrev pub tcp_label : List ℕ
tcp_label = b'I' ∷ b'P' ∷ b'P' ∷ b'R' ∷ b'O' ∷ b'T' ∷ b'O' ∷ b'_' ∷ b'T' ∷ b'C' ∷ b'P' ∷ b' ' ∷ []

-- "IPPROTO_IP  "
abbrev pub ip_label : List ℕ
ip_label = b'I' ∷ b'P' ∷ b'P' ∷ b'R' ∷ b'O' ∷ b'T' ∷ b'O' ∷ b'_' ∷ b'I' ∷ b'P' ∷ b' ' ∷ b' ' ∷ []

-- "(proto="
abbrev pub proto_label : List ℕ
proto_label = b'(' ∷ b'p' ∷ b'r' ∷ b'o' ∷ b't' ∷ b'o' ∷ b'=' ∷ []

-- "?) "
abbrev pub unknown_end : List ℕ
unknown_end = b'?' ∷ b')' ∷ b' ' ∷ []

-- "(addr=?)"
abbrev pub unknown_addr : List ℕ
unknown_addr = b'(' ∷ b'a' ∷ b'd' ∷ b'd' ∷ b'r' ∷ b'=' ∷ b'?' ∷ b')' ∷ []

-- What is looked at of one result of `getaddrinfo`.
pub record Entry : Type 0 where
  pub ai_family : ℕ
  pub ai_socktype : ℕ
  pub ai_protocol : ℕ
  pub addr : List ℕ
  pub ai_canonname : Option (List ℕ)

unfoldable pub family_text : ℕ → List ℕ
unfolding decimal
family_text family =
    if family == family_inet
    then inet_label
    else if family == af_inet6
    then inet6_label
    else fam_label ++ (decimal family ++ unknown_end)

unfoldable pub socktype_text : ℕ → List ℕ
unfolding decimal
socktype_text socktype =
    if socktype == 1
    then stream_label
    else if socktype == 2
    then dgram_label
    else if socktype == 3
    then raw_label
    else sock_label ++ (decimal socktype ++ unknown_end)

unfoldable pub protocol_text : ℕ → List ℕ
unfolding decimal
protocol_text protocol =
    if protocol == 17
    then udp_label
    else if protocol == 6
    then tcp_label
    else if protocol == 0
    then ip_label
    else proto_label ++ (decimal protocol ++ unknown_end)

-- The calls of `strcat` on `info`, one after another; `none` if one runs past its end.
unfoldable pub append_all : List ℕ → List (List ℕ) → Option (List ℕ)
unfolding append_in
append_all info [] = some info
append_all info (text ∷ texts) = elim (append_in max_str info text) [
  | none ↦ none
  | some longer ↦ append_all longer texts
]

abbrev pub canonname_parts : Option (List ℕ) → List (List ℕ)
canonname_parts none = []
canonname_parts (some name) = name ∷ (b' ' ∷ []) ∷ []

-- The parts of `info`, in order.
abbrev pub parts : Entry → List ℕ → List (List ℕ)
parts p text_addr =
    family_text p.ai_family
    ∷ socktype_text p.ai_socktype
    ∷ protocol_text p.ai_protocol
    ∷ text_addr
    ∷ (b' ' ∷ [])
    ∷ canonname_parts p.ai_canonname

-- `ntop` and `ntop6` are `inet_ntop` for the two families.
module _ {W : Type 0} (ntop ntop6 : List ℕ → Option (List ℕ)) where
  -- `Inet_ntop`
  unfoldable pub text_or_quit : Option (List ℕ) → Io W (List ℕ)
  text_or_quit none = err_quit
  text_or_quit (some text) = pure text

  unfoldable pub address_text : Entry → Io W (List ℕ)
  unfolding text_or_quit
  address_text p =
      if p.ai_family == family_inet
      then text_or_quit (ntop p.addr)
      else if p.ai_family == af_inet6
      then text_or_quit (ntop6 p.addr)
      else pure unknown_addr

  unfoldable pub line_or_stop : Option (List ℕ) → Io W (List ℕ)
  line_or_stop none = stop undefined
  line_or_stop (some info) = pure info

  -- The text of one result, which `err_msg` prints behind the name of the program.
  unfoldable pub entry_line : Entry → Io W (List ℕ)
  unfolding address_text line_or_stop append_all family_text socktype_text protocol_text
  entry_line p = address_text p >>= λ text_addr. line_or_stop (append_all [] (parts p text_addr))

  -- `Print_getaddrinfo_list`: the texts of its messages but the first
  unfoldable pub entry_lines : List Entry → Io W (List (List ℕ))
  unfolding entry_line
  entry_lines [] = pure []
  entry_lines (p ∷ ps) = do info ← entry_line p; infos ← entry_lines ps; pure (info ∷ infos)

-- `showAddr`, for the text that `inet_ntoa` gives and a port in the order of the host
unfoldable pub show_addr : List ℕ → List ℕ → ℕ → List ℕ
unfolding decimal
show_addr str p port = str ++ (b' ' ∷ (p ++ (b'!' ∷ (decimal port ++ (10 ∷ [])))))
