-- ===== src/Sockwrap/Datagrams.antt =====
-- The wrappers of sockwrap.c for datagrams, for addresses and for processes. The wrapper of `sendto`
-- stands here as `sendto`, and so on.
use dp.Base.{ℕ, Option, none, some, List, length}
use dp.Os.Calls.{Fd, Os}
use dp.Os.Processes.{Processes}
use dp.Os.Io.{Io, pure, call, ◌>>=◌}
use dp.Errlib.{err_sys, err_quit}
use dp.Sockwrap.Wrap
use dp.Square.Udp.{Address, Datagram, Udp}

-- What `inet_pton` makes of a text: its results 1, 0 and -1.
pub data Parsed : Type 0 where
  parsed : Address → Parsed
  not_valid : Parsed
  no_family : Parsed

module _ (os : Os) where
  -- `Recvfrom`
  unfoldable pub recvfrom : Udp os.World → Fd → ℕ → Io os.World Datagram
  recvfrom udp s room = call (udp.recvfrom s room) >>= Wrap.check_some os

  -- `Sendto`
  unfoldable pub sendto : Udp os.World → Fd → Datagram → Io os.World (Unit {0})
  sendto udp s d = call (udp.sendto s d) >>= Wrap.check_count os (length d.bytes)

  -- `Inet_pton`
  unfoldable pub inet_pton : Parsed → Io os.World Address
  inet_pton (parsed address) = pure address
  inet_pton not_valid = err_quit
  inet_pton no_family = err_sys

  -- `Inet_aton`, and `Inet_ntop`, which end the process alike
  unfoldable pub inet_or_exit : Option (List ℕ) → Io os.World (List ℕ)
  inet_or_exit none = err_quit
  inet_or_exit (some result) = pure result

  -- `Fork`
  unfoldable pub fork : Processes os.World → Io os.World ℕ
  fork processes = call processes.fork >>= Wrap.check_some os
