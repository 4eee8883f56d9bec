-- ===== src/FileServer/Bench.antt =====
-- A machine whose disk holds one file, and a request for it.
use dp.Base.{
  ℕ, ◌≡◌, refl, arith, false, none, some, List, [], ◌∷◌, length, replicate, ◌==◌, if◌then◌else◌,
}
use dp.Os.Net.{File}
use dp.Os.Loopback.{Machine, loopback}
use dp.Os.Loopback.Laws.{loopback_reliable, loopback-Prompt}
use dp.FileServer.Service.Rounds.{Serves}

abbrev pub notes : File
notes = record { content = replicate 20 b'n'; mtime = 1600000000 }

abbrev pub notes_name : List ℕ
notes_name = b'n' ∷ b'.' ∷ b't' ∷ b'x' ∷ b't' ∷ []

-- A connection on descriptor 4, and a disk that holds one file.
abbrev pub idle : List ℕ → Machine
idle request = record {
  net = record {
    incoming = λ fd. if fd == 4 then request else [];
    sent = λ fd. [];
    under = λ fd. [];
    is_open = λ fd. false;
    file_of = λ fd. record { content = []; mtime = 0 };
    is_file = λ fd. false;
    written = λ name. none;
    disk = λ name. if length name == 5 then some notes else none;
  };
  closed = λ fd. false;
  next_fd = 5;
  interrupts = 3;
  chunk = 6;
  last_error = 0;
  typed = [];
  waiting = [];
}

abbrev pub request : List ℕ
request = b'G' ∷ b'E' ∷ b'T' ∷ b' ' ∷ b'n' ∷ b'.' ∷ b't' ∷ b'x' ∷ b't' ∷ 13 ∷ 10 ∷ []

-- The only file of the disk is `notes`.
pub only_notes :
    (name : List ℕ) (f : File)
    → (if length name == 5 then some notes else none) ≡ some f
    → f ≡ notes
only_notes name f e = ground (arith, e)

pub idle-Serves : Serves loopback loopback_reliable 100 4 50 30 (idle request)
idle-Serves = record {
  prompt = loopback-Prompt 4;
  unwritten = λ name. refl;
  in_range = λ name f e. rw (only_notes name f e) (omega arith);
  enough_rounds = λ name f e. rw (only_notes name f e) (omega arith);
  large = omega arith;
  enough = omega arith;
}
