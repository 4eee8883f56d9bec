-- ===== src/Sockwrap/Setup.antt =====
-- The calls that set a socket up, and the wrappers of them in sockwrap.c. The wrapper of `socket`
-- stands here as `socket`, and so on.
use dp.Base.{ℕ, Bool, true, false, Option, none, some, List}
use dp.Os.Calls.{Fd}
use dp.Os.Io.{Io, pure, call, ◌>>=◌}
use dp.Errlib.{err_sys, err_quit}

-- A result of `getaddrinfo`: an address is the list of its bytes.
pub record AddrInfo : Type 0 where
  pub ai_family : ℕ
  pub ai_socktype : ℕ
  pub ai_protocol : ℕ
  pub ai_addr : List ℕ
  pub ai_addrlen : ℕ

-- What is asked of `getaddrinfo`; fields that are not named are zero.
pub record Hints : Type 0 where
  pub family : ℕ
  pub socktype : ℕ
  pub flags : ℕ

-- The library's calls over a state `W` of the machine. `listenq` is the number in the environment's
-- LISTENQ, if it is set.
pub record Network (W : Type 0) : Type 0 where
  pub getaddrinfo : Option (List ℕ) → Option (List ℕ) → Hints → W → Option (List AddrInfo) × W
  pub socket : ℕ → ℕ → ℕ → W → Option Fd × W
  pub bind : Fd → List ℕ → ℕ → W → Bool × W
  pub listen : Fd → ℕ → W → Bool × W
  pub connect : Fd → List ℕ → ℕ → W → Bool × W
  pub listenq : W → Option ℕ

module _ {W : Type 0} (net : Network W) where
  unfoldable pub exit_unless : Bool → Io W (Unit {0})
  exit_unless true = pure tt
  exit_unless false = err_sys

  unfoldable pub check_fd : Option Fd → Io W Fd
  check_fd none = err_sys
  check_fd (some fd) = pure fd

  -- `Socket`
  unfoldable pub socket : ℕ → ℕ → ℕ → Io W Fd
  unfolding check_fd
  socket family socktype protocol = call (net.socket family socktype protocol) >>= check_fd

  -- `Bind`
  unfoldable pub bind : Fd → List ℕ → ℕ → Io W (Unit {0})
  unfolding exit_unless
  bind sockfd addr addrlen = call (net.bind sockfd addr addrlen) >>= exit_unless

  unfoldable pub backlog_or : ℕ → Option ℕ → ℕ
  backlog_or backlog none = backlog
  backlog_or backlog (some n) = n

  -- `Listen`: the environment goes before the argument
  unfoldable pub listen : Fd → ℕ → Io W (Unit {0})
  unfolding exit_unless backlog_or
  listen sockfd backlog w =
      (call (net.listen sockfd (backlog_or backlog (net.listenq w))) >>= exit_unless) w

  -- `Connect`
  unfoldable pub connect : Fd → List ℕ → ℕ → Io W (Unit {0})
  unfolding exit_unless
  connect sockfd addr addrlen = call (net.connect sockfd addr addrlen) >>= exit_unless

  unfoldable pub check_infos : Option (List AddrInfo) → Io W (List AddrInfo)
  check_infos none = err_quit
  check_infos (some infos) = pure infos

  -- `Getaddrinfo`
  unfoldable pub getaddrinfo : Option (List ℕ) → Option (List ℕ) → Hints → Io W (List AddrInfo)
  unfolding check_infos
  getaddrinfo node service hints = call (net.getaddrinfo node service hints) >>= check_infos
