-- ===== src/Square/Post.antt =====
-- A machine on which the square servers run.
use dp.Base.{
  ℕ, suc, ◌≡◌, refl, fun_ext, arith, Bool, true, false, Option, none, some, List, [], ◌∷◌, ◌++◌,
  length, take, ltb, if◌then◌else◌,
}
use mathlib.Core.Option.{some-injective, some-ne-none}
use dp.Os.Calls.{Fd}
use dp.Os.Net.{update}
use dp.Square.Udp.{Address, Datagram, Udp, UdpLaws, Block, Heap, HeapLaws}

-- A post office: datagrams that wait, those that were sent, and the memory of the process.
pub record Post : Type 0 where
  pub waiting : List Datagram
  pub gone : List Datagram
  pub next_block : Block
  pub freed : Block → Bool

abbrev pub in_use : Post → Block → Bool
in_use w b = if ltb b w.next_block then (if w.freed b then false else true) else false

unfoldable pub receive_from : ℕ → List Datagram → Post → Option Datagram × Post
receive_from room [] w = (none, w)
receive_from room (d ∷ rest) w =
    (some (record { bytes = take room d.bytes; peer = d.peer }), record w { waiting = rest })

abbrev pub post : Udp Post
post = record {
  recvfrom = λ s room w. receive_from room w.waiting w;
  sendto = λ s d w. (some (length d.bytes), record w { gone = w.gone ++ (d ∷ []) });
}

abbrev pub memory : Heap Post
memory = record {
  malloc = λ n w. (
    some w.next_block,
    record w { next_block = suc w.next_block; freed = update w.freed w.next_block false },
  );
  free = λ b w. ((record w { freed = update w.freed b true }));
}

pub receive_next :
    (room : ℕ) (ds : List Datagram) (w : Post) (d : Datagram) (rest : List Datagram)
    → ds ≡ d ∷ rest
    → ((receive_from room ds w).0 ≡ some (record { bytes = take room d.bytes; peer = d.peer }))
      × ((receive_from room ds w).1.waiting ≡ rest)
      × ((receive_from room ds w).1.gone ≡ w.gone)
unfolding receive_from
receive_next room ds w d rest e = rw e (refl, refl, refl)

abbrev pub post_laws : (s : Fd) → UdpLaws post s
post_laws s = record {
  waiting = λ w. w.waiting;
  gone = λ w. w.gone;
  recvfrom_next = λ room w d rest e. receive_next room w.waiting w d rest e;
  sendto_whole = λ d w. (refl, refl, refl);
}

pub next_free : (w : Post) (b : Block) → w.next_block ≡ b → in_use w b ≡ false
next_free w b e = ground (arith, e)

pub given :
    (w : Post) (b : Block)
    → w.next_block ≡ b
    → in_use (record w { next_block = suc w.next_block; freed = update w.freed w.next_block false })
      ≡ update (in_use w) b true
given w b e = fun_ext λ j. ground (arith, e)

pub taken_back :
    (w : Post) (b : Block)
    → in_use (record w { freed = update w.freed b true }) ≡ update (in_use w) b false
taken_back w b = fun_ext λ j. ground arith

abbrev pub memory_laws : HeapLaws memory post
memory_laws = record {
  live = in_use;
  malloc_fresh =
      λ n w b e. (next_free w b (some-injective _ _ e), given w b (some-injective _ _ e));
  malloc_fails = λ n w e. absurd (some-ne-none _ e);
  free_lem = λ b w. taken_back w b;
  sendto_apart = λ s d w. refl;
}

abbrev pub mail : List Datagram → Post
mail ds = record { waiting = ds; gone = []; next_block = 0; freed = λ b. false }

abbrev pub alice : Address
alice = 1 ∷ []

abbrev pub letter : List ℕ → Datagram
letter bs = record { bytes = bs; peer = alice }
