-- ===== src/Sockwrap/Others.antt =====
-- The wrappers of sockwrap.c for names, options, signals and the streams of <stdio.h>. The wrapper of
-- `fopen` stands here as `fopen`, and so on.
use dp.Base.{ℕ, Bool, true, false, Option, none, some, List, ◌==◌, if◌then◌else◌}
use dp.Os.Calls.{Fd}
use dp.Os.Io.{Io, pure, call, ◌>>=◌}
use dp.Errlib.{err_sys, err_quit}

abbrev pub Stream : Type 0
Stream = ℕ

-- SIGALRM, and the two flags of `sigaction`; SA_INTERRUPT is defined on Linux, and is 0x20000000.
abbrev pub sigalrm : ℕ
sigalrm = 14

abbrev pub sa_restart : ℕ
sa_restart = 268435456

abbrev pub sa_interrupt : ℕ
sa_interrupt = 536870912

-- A handler is its address.
abbrev pub Handler : Type 0
Handler = ℕ

-- The calls that the wrappers make. The address of a socket is the list of its bytes; `none` is an
-- error or a null pointer, `false` a result that is not 0.
pub record Library (W : Type 0) : Type 0 where
  pub gethostbyname : List ℕ → W → Option (List ℕ) × W
  pub getsockname : Fd → W → Option (List ℕ) × W
  pub getpeername : Fd → W → Option (List ℕ) × W
  pub setsockopt : Fd → ℕ → ℕ → List ℕ → W → Bool × W
  -- the signal, the handler and the flags; the handler that was there before
  pub sigaction : ℕ → Handler → ℕ → W → Option Handler × W
  pub fopen : List ℕ → List ℕ → W → Option Stream × W
  pub fclose : Stream → W → Bool × W
  pub fgets : ℕ → Stream → W → Option (List ℕ) × W
  pub ferror : Stream → W → Bool
  pub fputs : List ℕ → Stream → W → Bool × W

module _ {W : Type 0} where
  unfoldable pub or_quit : {A : Type 0} → Option A → Io W A
  or_quit none = err_quit
  or_quit (some a) = pure a

  unfoldable pub or_sys : {A : Type 0} → Option A → Io W A
  or_sys none = err_sys
  or_sys (some a) = pure a

  unfoldable pub unless_failed : Bool → Io W (Unit {0})
  unless_failed true = pure tt
  unless_failed false = err_sys

unfoldable pub flags_for : ℕ → ℕ
flags_for signo = if signo == sigalrm then sa_interrupt else sa_restart

module _ {W : Type 0} (lib : Library W) where
  -- `Gethostbyname`
  unfoldable pub gethostbyname : List ℕ → Io W (List ℕ)
  unfolding or_quit
  gethostbyname hostname = call (lib.gethostbyname hostname) >>= or_quit

  -- `Getsockname`, which ends the process by `err_quit`
  unfoldable pub getsockname : Fd → Io W (List ℕ)
  unfolding or_quit
  getsockname sockfd = call (lib.getsockname sockfd) >>= or_quit

  -- `Getpeername`
  unfoldable pub getpeername : Fd → Io W (List ℕ)
  unfolding or_sys
  getpeername fd = call (lib.getpeername fd) >>= or_sys

  -- `Setsockopt`
  unfoldable pub setsockopt : Fd → ℕ → ℕ → List ℕ → Io W (Unit {0})
  unfolding unless_failed
  setsockopt fd level optname optval =
      call (lib.setsockopt fd level optname optval) >>= unless_failed

  -- `signal` of the file; `none` is SIG_ERR
  unfoldable pub signal : ℕ → Handler → W → Option Handler × W
  unfolding flags_for
  signal signo func = lib.sigaction signo func (flags_for signo)

  -- `Signal`
  unfoldable pub signal_or_exit : ℕ → Handler → Io W Handler
  unfolding signal or_sys
  signal_or_exit signo func = call (signal signo func) >>= or_sys

  -- `Fclose`
  unfoldable pub fclose : Stream → Io W (Unit {0})
  unfolding unless_failed
  fclose fp = call (lib.fclose fp) >>= unless_failed

  -- `Fgets`: the end of the file is no error.
  unfoldable pub line_or_end : Stream → Option (List ℕ) → Io W (Option (List ℕ))
  line_or_end stream none w = if lib.ferror stream w then err_sys w else pure none w
  line_or_end stream (some line) w = pure (some line) w

  unfoldable pub fgets : ℕ → Stream → Io W (Option (List ℕ))
  unfolding line_or_end
  fgets n stream = call (lib.fgets n stream) >>= line_or_end stream

  -- `Fopen`
  unfoldable pub fopen : List ℕ → List ℕ → Io W Stream
  unfolding or_sys
  fopen filename mode = call (lib.fopen filename mode) >>= or_sys

  -- `Fputs`
  unfoldable pub fputs : List ℕ → Stream → Io W (Unit {0})
  unfolding unless_failed
  fputs text stream = call (lib.fputs text stream) >>= unless_failed
