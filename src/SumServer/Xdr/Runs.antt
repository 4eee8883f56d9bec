-- ===== src/SumServer/Xdr/Runs.antt =====
-- `prot_x` and its client on a machine of lists, whose streams have no buffer.
use dp.Base.{
  ℕ, append_assoc, suc, ◌≡◌, refl, fun_ext, arith, Bool, true, false, Option, none, some, List, [],
  ◌∷◌, ◌++◌, ltb, if◌then◌else◌,
}
use dp.Base.Int.{ℤ, pos, negsuc, int_sum}
use dp.Os.Net.{update}
use dp.Os.Io.{ok}
use dp.SumServer.Client.{Sending, over_socket, over_socket-prot_x}
use dp.SumServer.Xdr.{Stream, IntStreams, prot_x}
use dp.SumServer.Xdr.Sums.{Working, prot_x-SumOutcome}

record Desk : Type 0 where
  pub waiting : List ℤ
  pub written : List ℤ
  pub next : Stream
  pub closed : Stream → Bool

abbrev opens : Desk → Stream → Bool
opens w f = if ltb f w.next then (if w.closed f then false else true) else false

abbrev open_next : Desk → Option Stream × Desk
open_next w = (some w.next, record w { next = suc w.next; closed = update w.closed w.next false })

abbrev take_int : List ℤ → Desk → Option ℤ × Desk
take_int [] w = (none, w)
take_int (v ∷ rest) w = (some v, record w { waiting = rest })

abbrev desk : IntStreams Desk
desk = record {
  fdopen_read = λ fd w. open_next w;
  fdopen_write = λ fd w. open_next w;
  read_int = λ f w. take_int w.waiting w;
  write_int = λ f v w. (true, record w { written = w.written ++ (v ∷ []) });
  flush = λ f w. (tt, w);
  fclose = λ f w. (tt, record w { closed = update w.closed f true });
}

opened_next :
    (w : Desk)
    → opens (record w { next = suc w.next; closed = update w.closed w.next false })
      ≡ update (opens w) w.next true
opened_next w = fun_ext λ j. ground arith

not_yet : (w : Desk) → opens w w.next ≡ false
not_yet w = ground arith

closed_one :
    (f : Stream) (w : Desk)
    → opens (record w { closed = update w.closed f true }) ≡ update (opens w) f false
closed_one f w = fun_ext λ j. ground arith

taken_some :
    (ds : List ℤ) (w : Desk) (v : ℤ) (rest : List ℤ)
    → ds ≡ v ∷ rest
    → ((take_int ds w).0 ≡ some v)
      × ((take_int ds w).1.waiting ≡ rest)
      × ((take_int ds w).1.written ≡ w.written)
      × (opens (take_int ds w).1 ≡ opens w)
taken_some ds w v rest e = rw e (refl, refl, refl, refl)

taken_none :
    (ds : List ℤ) (w : Desk)
    → ds ≡ []
    → w.waiting ≡ []
    → ((take_int ds w).0 ≡ none)
      × ((take_int ds w).1.waiting ≡ [])
      × ((take_int ds w).1.written ≡ w.written)
      × (opens (take_int ds w).1 ≡ opens w)
taken_none ds w e e' = rw e (refl, e', refl, refl)

abbrev desk_laws : (s : ℕ) → Working desk s
desk_laws s = record {
  pending = λ w. w.waiting;
  sent = λ w. w.written;
  is_open = opens;
  fdopen_read_lem = λ w. (w.next, refl, not_yet w, refl, refl, opened_next w);
  fdopen_write_lem = λ w. (w.next, refl, not_yet w, refl, refl, opened_next w);
  read_int_some = λ f w v rest e. taken_some w.waiting w v rest e;
  read_int_none = λ f w e. taken_none w.waiting w e e;
  flush_sends = λ f v w. (refl, refl);
  fclose_lem = λ f w. (refl, closed_one f w);
}

abbrev two_numbers : Desk
two_numbers = record {
  waiting = pos 40 ∷ negsuc 41 ∷ [];
  written = [];
  next = 9;
  closed = λ f. false;
}

prot_x-SumOutcome_example :
    (w' : Desk) × (prot_x desk 4 two_numbers ≡ (ok 0, w'))
    × (w'.written ≡ negsuc 1 ∷ [])
    × (opens w' ≡ opens two_numbers)
unfolding int_sum
prot_x-SumOutcome_example =
    prot_x-SumOutcome desk 4 (desk_laws 4) (pos 40 ∷ negsuc 41 ∷ []) two_numbers refl

-- The client's side: the answer waits.
abbrev asking : Desk
asking = record two_numbers { waiting = negsuc 1 ∷ [] }

abbrev sending : Sending desk 3 (desk_laws 3)
sending = record { two_sent = λ f a b w. (append_assoc w.written (a ∷ []) (b ∷ []), refl) }

over_socket-prot_x_example :
    (w' : Desk) × (v' : Desk) × (over_socket desk 3 (pos 40) (negsuc 41) asking
      ≡ (ok (negsuc 1), w'))
    × (w'.written ≡ pos 40 ∷ negsuc 41 ∷ [])
    × (prot_x desk 4 two_numbers ≡ (ok 0, v'))
    × (v'.written ≡ negsuc 1 ∷ [])
unfolding int_sum
over_socket-prot_x_example =
    over_socket-prot_x desk 4 (desk_laws 4) desk 3 (desk_laws 3) sending (pos 40) (negsuc 41)
      (negsuc 1) asking two_numbers refl refl refl
