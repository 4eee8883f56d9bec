-- ===== src/Transfer/Runs.antt =====
-- A transfer between two machines of `Loopback`.
use dp.Base.{
  ℕ, ◌+◌, ◌≡◌, inr, refl, arith, false, none, some, List, [], ◌∷◌, ◌++◌, drop, replicate, ◌==◌,
  if◌then◌else◌,
}
use dp.Os.Calls.{Fd}
use dp.Os.Io.{ok, out_of_fuel}
use dp.Os.Net.{File, stored, held}
use dp.Os.Loopback.{Machine, loopback, view}
use dp.Os.Loopback.Laws.{loopback_reliable}
use dp.FileServer.SendFile.{send_file}
use dp.FileClient.Receive.{receive_file}
use dp.Transfer.{Ready, transfer_saves, transfer_hangs}

abbrev name : List ℕ
name = b'd' ∷ b'o' ∷ b'c' ∷ []

-- A file of `size` bytes.
abbrev doc : ℕ → File
doc size = record { content = replicate size b'd'; mtime = 1600000000 }

-- A machine that has `incoming` to read on descriptor 3, and a file of `size` bytes under every name.
abbrev machine : ℕ → List ℕ → Machine
machine size incoming = record {
  net = record {
    incoming = λ fd. if fd == 3 then incoming else [];
    sent = λ fd. [];
    under = λ fd. [];
    is_open = λ fd. false;
    file_of = λ fd. record { content = []; mtime = 0 };
    is_file = λ fd. false;
    written = λ name. none;
    disk = λ name. some (doc size);
  };
  closed = λ fd. false;
  next_fd = 5;
  interrupts = 1;
  chunk = 6;
  last_error = 0;
  typed = [];
  waiting = [];
}

-- The bytes that the server has sent on descriptor 4, less the first one.
abbrev sent_on : ℕ → List ℕ
sent_on size =
    drop 1 ((view (send_file loopback 100 4 (size + 1) name 16 (machine size [])).1).sent 4)

saved-Ready : Ready loopback loopback_reliable 100 4 16 name (doc 46) (machine 46 [])
saved-Ready = record {
  found = refl;
  unwritten = refl;
  nothing_sent = refl;
  large = omega arith;
  fits = omega arith;
  enough = omega arith;
}

transfer_saves_example :
    (fd : Fd) × ((send_file loopback 100 4 47 name 16 (machine 46 [])).0 ≡ ok 1)
    × ((receive_file loopback 10 3 16 50 (name ++ (10 ∷ [])) (machine 60 (sent_on 46))).0 ≡ ok tt)
    × (stored fd
          (view (receive_file loopback 10 3 16 50 (name ++ (10 ∷ [])) (machine 60 (sent_on 46))).1)
        ≡ (doc 46).content ++ drop 46 (held name (view (machine 60 (sent_on 46)))))
transfer_saves_example =
    transfer_saves loopback loopback_reliable loopback loopback_reliable 100 4 16 name (doc 46)
      (machine 46 []) saved-Ready 10 3 16 50 name 10 (machine 60 (sent_on 46)) refl (omega arith)
      (inr (omega arith)) (omega arith) (omega arith)

cut-Ready : Ready loopback loopback_reliable 100 4 16 name (doc 34) (machine 34 [])
cut-Ready = record {
  found = refl;
  unwritten = refl;
  nothing_sent = refl;
  large = omega arith;
  fits = omega arith;
  enough = omega arith;
}

transfer_hangs_example :
    ((send_file loopback 100 4 35 name 16 (machine 34 [])).0 ≡ ok 1)
    × ((receive_file loopback 10 3 16 1000 (name ++ (10 ∷ [])) (machine 60 (sent_on 34))).0
        ≡ out_of_fuel)
transfer_hangs_example =
    transfer_hangs loopback loopback_reliable loopback loopback_reliable 100 4 16 name (doc 34)
      (machine 34 []) cut-Ready 10 3 16 1000 name 10 (machine 60 (sent_on 34)) refl (omega arith)
      (omega arith) (omega arith)
