-- ===== src/Os/Loopback.antt =====
-- A machine on which everything can be run: streams are lists, a read or a write moves at most
-- `chunk + 1` bytes, the next `interrupts` of them are interrupted by a signal, and descriptors that
-- were closed are used again.
pub mod Laws
use dp.Base.{
  ℕ, ◌-◌, zero, suc, ◌+◌, ◌≤◌, ◌<◌, ◌≡◌, ◌≢◌, refl, sym, ap, ◌∙◌, fun_ext, arith, Bool, true, false,
  not, ◌&&◌, Option, none, some, List, [], ◌∷◌, length, take, min, length-take, take-length-take,
  subst, ◌-◌, ltb, ◌==◌, if◌then◌else◌,
}
use dp.Os.Calls.{Fd, FileName, Stat, Os}
use dp.Os.Errno.{eintr, ebadf}
use dp.Os.Net.{Net, File, update, consume, emit, shut, opened, created, held, settle}
use dp.Os.Reliable.{Reliable, Interrupted}
use mathlib.Core.Option.{some-ne-none, none-ne-some, some-injective}
use native.Mathlib.Nat.{le_refl}

pub record Machine : Type 0 where
  pub net : Net
  pub closed : Fd → Bool
  pub next_fd : Fd
  pub interrupts : ℕ
  pub chunk : ℕ
  pub last_error : ℕ
  -- the lines that will be typed
  pub typed : List (List ℕ)
  -- what the clients that wait to be accepted will send
  pub waiting : List (List ℕ)

abbrev pub is_open_now : Machine → Fd → Bool
is_open_now w fd = ltb fd w.next_fd && not (w.closed fd)

abbrev pub view : Machine → Net
view w = record w.net { is_open = is_open_now w }

abbrev pub interrupted : ℕ → Machine → Machine
interrupted k w = record w { interrupts = k; last_error = eintr }

unfoldable pub read_with : ℕ → Fd → ℕ → Machine → Option (List ℕ) × Machine
read_with (suc k) fd n w = (none, interrupted k w)
read_with zero fd n w =
    let bs = take (min n (w.chunk + 1)) (w.net.incoming fd) in
    (some bs, record w { net = consume fd (length bs) w.net })

-- A write to a regular file takes all.
unfoldable pub write_with : Bool → ℕ → Fd → List ℕ → Machine → Option ℕ × Machine
write_with true k fd bs w =
    (some (length bs), record w { net = emit fd (take (length bs) bs) w.net })
write_with false (suc k) fd bs w = (none, interrupted k w)
write_with false zero fd bs w =
    let k = min (length bs) (w.chunk + 1) in (some k, record w { net = emit fd (take k bs) w.net })

-- The number of the last descriptor is used again for the next one.
abbrev pub close_at : Fd → Machine → Bool × Machine
close_at fd w = (
  true,
  record w {
    net = settle fd w.net;
    closed = update w.closed fd true;
    next_fd = if w.next_fd == fd + 1 then fd else w.next_fd;
  },
)

abbrev pub with_fd : (Fd → Net → Net) → Machine → Option Fd × Machine
with_fd change w = (
  some w.next_fd,
  record w {
    net = change w.next_fd w.net;
    closed = update w.closed w.next_fd false;
    next_fd = w.next_fd + 1;
  },
)

unfoldable pub open_file : Option File → Machine → Option Fd × Machine
open_file none w = (none, record w { last_error = 2 })
open_file (some f) w = with_fd (λ fd. opened fd f) w

unfoldable pub accept_next : List (List ℕ) → Machine → Option Fd × Machine
accept_next [] w = (none, record w { last_error = ebadf })
accept_next (stream ∷ rest) w =
    with_fd (λ fd. opened fd (record { content = stream; mtime = 0 })) (record w { waiting = rest })

unfoldable pub next_line : ℕ → List (List ℕ) → Machine → Option (List ℕ) × Machine
next_line limit [] w = (none, w)
next_line limit (line ∷ rest) w = (some (take (limit - 1) line), record w { typed = rest })

abbrev pub loopback : Os
loopback = record {
  World = Machine;
  errno = λ w. w.last_error;
  read = λ fd n w. read_with w.interrupts fd n w;
  write = λ fd bs w. write_with (w.net.is_file fd) w.interrupts fd bs w;
  recv = λ fd n flags w. read_with w.interrupts fd n w;
  send = λ fd bs flags w. write_with (w.net.is_file fd) w.interrupts fd bs w;
  close = close_at;
  shutdown = λ fd how w. (true, w);
  accept = λ fd w. accept_next w.waiting w;
  select = λ fds limit w. (some fds, w);
  so_error = λ fd w. (some 0, w);
  so_rcvbuf = λ fd w. (some 131072, w);
  open_read = λ name w. open_file (w.net.disk name) w;
  open_create = λ name w. with_fd (λ fd. created fd name (held name w.net)) w;
  fstat = λ fd w.
      let f = w.net.file_of fd in
      (some (record { st_size = length f.content; st_mtime = f.mtime }), w);
  fgets = λ limit w. next_line limit w.typed w;
  malloc = λ n w. (true, w);
}
