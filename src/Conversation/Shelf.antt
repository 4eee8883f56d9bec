-- ===== src/Conversation/Shelf.antt =====
-- A server with two files, and the requests for them.
use dp.Base.{
  ℕ, subst, Bool, ◌<◌, ◌≡◌, inl, inr, refl, arith, false, true, none, some, Option, List, [], ◌∷◌,
  ◌++◌, length, replicate, ◌==◌, if◌then◌else◌,
}
use mathlib.Core.Option.{some-injective}
use dp.Os.Calls.{FileName}
use dp.Os.Net.{File, arrive}
use dp.Os.Loopback.{Machine, view}
use dp.FileServer.SendFile.Sent.{header, stat_of}
use dp.Os.Net.{same_name}
use dp.Base.Scan.{is_space}
use dp.Conversation.{Carries, Listening}
use dp.Conversation.Batch.{turn, answer_to, AllWanted}
use dp.Conversation.Bench.{
  whole_os, whole_reliable, whole_os-Prompt, whole_os-OnePiece, scripted_os, scripted_reliable,
}

-- The files: one of 16 bytes, which is a whole piece, and one of 15 bytes.
abbrev pub long_file : File
long_file = record { content = replicate 16 b'x'; mtime = 1600000000 }

abbrev pub short_file : File
short_file = record { content = replicate 15 b'y'; mtime = 1500000000 }

abbrev pub on_server : FileName → File
on_server name = if length name == 1 then long_file else short_file

abbrev pub first_name : FileName
first_name = b'a' ∷ []

abbrev pub second_name : FileName
second_name = b'b' ∷ b'c' ∷ []

abbrev pub names : List FileName
names = first_name ∷ second_name ∷ []

abbrev pub machine : (FileName → Option File) → List (List ℕ) → Machine
machine disk waiting = record {
  net = record {
    incoming = λ fd. [];
    sent = λ fd. [];
    under = λ fd. [];
    is_open = λ fd. false;
    file_of = λ fd. record { content = []; mtime = 0 };
    is_file = λ fd. false;
    written = λ name. none;
    disk = disk;
  };
  closed = λ fd. false;
  next_fd = 5;
  interrupts = 2;
  chunk = 6;
  last_error = 0;
  typed = [];
  waiting = waiting;
}

abbrev pub server_start : Machine
server_start = machine (λ name. some (on_server name)) []

abbrev pub post : List ℕ → Machine → Machine
post bs w = record w { net = arrive 4 bs w.net }

pub post-Carries : Carries whole_os whole_reliable 100 4 16 20 post
unfolding arrive
post-Carries = record {
  arrives = λ bs w. refl;
  calm = λ bs w. omega arith;
  one_piece = whole_os-OnePiece 4;
}

small_file : (name f : _) → some (on_server name) ≡ some f → length f.content < 17
small_file name f e =
    subst (λ g. length g.content < 17) (some-injective _ _ e) (small (length name == 1))
  where
    small : (b : Bool) → length (if b then long_file else short_file).content < 17
    small true = omega arith
    small false = omega arith

pub start-Listening : Listening whole_os whole_reliable 100 4 16 20 post server_start
start-Listening = record {
  serves = record {
    prompt = whole_os-Prompt 4;
    unwritten = λ name. refl;
    in_range = λ name f e. omega (arith, small_file name f e);
    enough_rounds = λ name f e. omega (arith, small_file name f e);
    large = omega arith;
    enough = omega arith;
  };
  quiet = refl;
  in_use = refl;
}

abbrev pub next : FileName → Machine → Machine
next = turn whole_os whole_reliable 100 4 16 20 post post-Carries

abbrev pub said : FileName → Machine → List ℕ
said = answer_to whole_os whole_reliable 100 4 16 20 post post-Carries

pub names-AllWanted :
    AllWanted whole_os whole_reliable 100 4 16 20 post post-Carries scripted_os scripted_reliable
      300 3 16 20 on_server names
      (view server_start)
unfolding is_space same_name
names-AllWanted = (
  record {
    word = (refl, tt);
    text = (omega arith, tt);
    not_empty = omega arith;
    short = omega arith;
    fits = omega arith;
    no_quit = refl;
    found = refl;
    whole = inl refl;
  },
  omega arith,
  (
    record {
      word = (refl, (refl, tt));
      text = (omega arith, (omega arith, tt));
      not_empty = omega arith;
      short = omega arith;
      fits = omega arith;
      no_quit = refl;
      found = refl;
      whole = inr (omega arith);
    },
    omega arith,
    tt,
  ),
)

-- What it answers.
abbrev pub answer : File → List ℕ
answer f = header (stat_of f) ++ f.content
