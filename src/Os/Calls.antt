-- ===== src/Os/Calls.antt =====
-- The system calls and library calls that the programs make. `none` stands for a result of -1 (or
-- a null pointer), after which `errno` tells the reason; a read gives the bytes that it stored.
use dp.Base.{ℕ, Bool, Option, List}

abbrev pub Fd : Type 0
Fd = ℕ

abbrev pub FileName : Type 0
FileName = List ℕ

-- MSG_NOSIGNAL of <sys/socket.h>
abbrev pub msg_nosignal : ℕ
msg_nosignal = 16384

-- The two fields of `struct stat` that the server reads.
pub record Stat : Type 0 where
  pub st_size : ℕ
  pub st_mtime : ℕ

pub record Os : Type 1 where
  pub World : Type 0
  pub errno : World → ℕ
  pub read : Fd → ℕ → World → Option (List ℕ) × World
  pub write : Fd → List ℕ → World → Option ℕ × World
  pub recv : Fd → ℕ → ℕ → World → Option (List ℕ) × World
  pub send : Fd → List ℕ → ℕ → World → Option ℕ × World
  pub close : Fd → World → Bool × World
  pub shutdown : Fd → ℕ → World → Bool × World
  pub accept : Fd → World → Option Fd × World
  -- descriptors to wait for, and a limit in seconds; the descriptors that are ready
  pub select : List Fd → Option ℕ → World → Option (List Fd) × World
  pub so_error : Fd → World → Option ℕ × World
  pub so_rcvbuf : Fd → World → Option ℕ × World
  pub open_read : FileName → World → Option Fd × World
  pub open_create : FileName → World → Option Fd × World
  pub fstat : Fd → World → Option Stat × World
  -- a line of standard input, at most one byte fewer than the limit
  pub fgets : ℕ → World → Option (List ℕ) × World
  pub malloc : ℕ → World → Bool × World
