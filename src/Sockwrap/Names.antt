-- ===== src/Sockwrap/Names.antt =====
-- `sock_ntop` and `sock_ntop_host` of sockwrap.c: the text of a socket address, in a static array of 128
-- bytes.
pub mod Texts
mod Runs
use dp.Base.{
  ℕ, ◌+◌, Bool, true, false, Option, none, some, List, [], ◌∷◌, ◌++◌, length, ◌==◌, if◌then◌else◌,
}
use dp.Base.Scan.{before_nul}
use dp.Os.Io.{Io, undefined, pure, stop, ◌>>=◌}
use dp.Errlib.{err_sys}
use dp.Errlib.Message.{print_into, append_in}
use dp.SumServer.Decimal.{decimal}

-- A socket address by its family: the bytes of an address and a port, the array of a path, or the
-- number of the family.
pub data SockAddr : Type 0 where
  inet : List ℕ → ℕ → SockAddr
  inet6 : List ℕ → ℕ → SockAddr
  local : List ℕ → SockAddr
  other : ℕ → SockAddr

abbrev pub str_size : ℕ
str_size = 128

abbrev pub port_size : ℕ
port_size = 8

-- "(no pathname bound)"
abbrev pub no_pathname : List ℕ
no_pathname =
    b'(' ∷ b'n' ∷ b'o' ∷ b' ' ∷ b'p' ∷ b'a' ∷ b't' ∷ b'h' ∷ b'n' ∷ b'a' ∷ b'm' ∷ b'e' ∷ b' ' ∷ b'b'
    ∷ b'o' ∷ b'u' ∷ b'n' ∷ b'd' ∷ b')' ∷ []

-- ": unknown AF_xxx: "
abbrev pub unknown_af : List ℕ
unknown_af =
    b':' ∷ b' ' ∷ b'u' ∷ b'n' ∷ b'k' ∷ b'n' ∷ b'o' ∷ b'w' ∷ b'n' ∷ b' ' ∷ b'A' ∷ b'F' ∷ b'_' ∷ b'x'
    ∷ b'x' ∷ b'x' ∷ b':' ∷ b' ' ∷ []

-- ", len "
abbrev pub comma_len : List ℕ
comma_len = b',' ∷ b' ' ∷ b'l' ∷ b'e' ∷ b'n' ∷ b' ' ∷ []

-- The names that the two functions print of themselves.
abbrev pub ntop_name : List ℕ
ntop_name = b's' ∷ b'o' ∷ b'c' ∷ b'k' ∷ b'_' ∷ b'n' ∷ b't' ∷ b'o' ∷ b'p' ∷ []

abbrev pub ntop_host_name : List ℕ
ntop_host_name = ntop_name ++ (b'_' ∷ b'h' ∷ b'o' ∷ b's' ∷ b't' ∷ [])

-- AF_INET6
abbrev pub af_inet6 : ℕ
af_inet6 = 10

-- A result of `none` is a null pointer.
abbrev pub Text : Type 0
Text = Option (List ℕ)

-- `snprintf` into `portstr`
unfoldable pub port_text : List ℕ → ℕ → List ℕ
unfolding print_into decimal
port_text lead port = print_into port_size (lead ++ decimal port)

module _ {W : Type 0} where
  unfoldable pub stored : Text → Io W Text
  stored none = stop undefined
  stored (some str) = pure (some str)

  unfoldable pub inet_text : ℕ → Text → Io W Text
  unfolding stored append_in port_text
  inet_text port none = pure none
  inet_text port (some str) =
      if port == 0
      then pure (some str)
      else stored (append_in str_size str (port_text (b':' ∷ []) port))

  -- Without a port the text starts behind the bracket.
  unfoldable pub inet6_text : ℕ → Text → Io W Text
  unfolding stored append_in port_text
  inet6_text port none = pure none
  inet6_text port (some str) =
      if port == 0
      then pure (some str)
      else stored (append_in str_size (b'[' ∷ str) (port_text (b']' ∷ b':' ∷ []) port))

  -- An array without a terminator is read past its end.
  unfoldable pub local_text : Text → Io W Text
  unfolding print_into
  local_text none = stop undefined
  local_text (some []) = pure (some no_pathname)
  local_text (some (c ∷ cs)) = pure (some (print_into str_size (c ∷ cs)))

  unfoldable pub unknown_text : List ℕ → ℕ → ℕ → Io W Text
  unfolding print_into decimal
  unknown_text name family salen = pure (
      some (
        print_into str_size
          (name ++ (unknown_af ++ (decimal family ++ (comma_len ++ decimal salen))))))

  unfoldable pub text_or_exit : Text → Io W (List ℕ)
  text_or_exit none = err_sys
  text_or_exit (some str) = pure str

-- `ntop` and `ntop6` are `inet_ntop` for the two families, and `ipv6` says whether the program was
-- compiled with IPV6.
module _ {W : Type 0} (ntop ntop6 : List ℕ → Option (List ℕ)) (ipv6 : Bool) where
  unfoldable pub sock_ntop : SockAddr → ℕ → Io W Text
  unfolding inet_text inet6_text local_text unknown_text before_nul
  sock_ntop (inet addr port) salen = inet_text port (ntop addr)
  sock_ntop (inet6 addr port) salen =
      if ipv6 then inet6_text port (ntop6 addr) else unknown_text ntop_name af_inet6 salen
  sock_ntop (local path) salen = local_text (before_nul path)
  sock_ntop (other family) salen = unknown_text ntop_name family salen

  unfoldable pub sock_ntop_host : SockAddr → ℕ → Io W Text
  unfolding local_text unknown_text before_nul
  sock_ntop_host (inet addr port) salen = pure (ntop addr)
  sock_ntop_host (inet6 addr port) salen =
      if ipv6 then pure (ntop6 addr) else unknown_text ntop_host_name af_inet6 salen
  sock_ntop_host (local path) salen = local_text (before_nul path)
  sock_ntop_host (other family) salen = unknown_text ntop_host_name family salen

  -- `Sock_ntop` and `Sock_ntop_host`
  unfoldable pub sock_ntop_or_exit : SockAddr → ℕ → Io W (List ℕ)
  unfolding sock_ntop text_or_exit
  sock_ntop_or_exit sa salen = sock_ntop sa salen >>= text_or_exit

  unfoldable pub sock_ntop_host_or_exit : SockAddr → ℕ → Io W (List ℕ)
  unfolding sock_ntop_host text_or_exit
  sock_ntop_host_or_exit sa salen = sock_ntop_host sa salen >>= text_or_exit
