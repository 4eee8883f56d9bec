-- ===== src/FileClient/Session/Closed.antt =====
-- What becomes of the client of lab3/es2 when it has closed its connection.
use dp.Base.{
  ℕ, zero, suc, ◌<◌, ◌≡◌, ◌≢◌, refl, arith, Bool, true, false, Option, none, some, List, [], ◌∷◌,
  ◌==◌, Bool-cases, inl, inr,
}
use dp.Os.Calls.{Fd, Os}
use dp.Os.Errno.{ebadf}
use dp.Os.Io.{exit, ◌>>◌}
use dp.Sockwrap.Wrap
use dp.FileClient.Commands.{manage_error}
use dp.FileClient.Session.{Session, first_byte, answered, session}

-- What the manual pages say of a descriptor after `close`: `select` on a set that it is in fails with
-- EBADF.
pub record Forgets (os : Os) : Type 0 where
  pub is_open : os.World → Fd → Bool
  pub close_closes :
      (fd : Fd) (w : os.World) → (os.close fd w).0 ≡ true → is_open (os.close fd w).1 fd ≡ false
  pub select_closed :
      (fd other : Fd) (limit : Option ℕ) (w : os.World)
      → is_open w fd ≡ false
      → ((os.select (other ∷ fd ∷ []) limit w).0 ≡ none)
        × (os.errno (os.select (other ∷ fd ∷ []) limit w).1 ≡ ebadf)

ne→not_== : (a b : ℕ) → a ≢ b → (a == b) ≡ false
ne→not_== a b h = ground (arith, h)

module _ (os : Os) (forgets : Forgets os) (fuel rounds : ℕ) (sockfd : Fd) (buflen : ℕ) where
  select-exits :
      (fuel : ℕ) (w : os.World)
      → 0 < fuel
      → forgets.is_open w sockfd ≡ false
      → Wrap.select os fuel (0 ∷ sockfd ∷ []) none w
        ≡ (exit 1, (os.select (0 ∷ sockfd ∷ []) none w).1)
  unfolding Wrap.select Wrap.retry_select
  select-exits zero w pos e = absurd (omega arith)
  select-exits (suc fuel) w pos e =
      let (failed, bad) = forgets.select_closed sockfd 0 none w e in rw failed (rw bad refl)

  session-exits :
      (turns : ℕ) (s : Session) (w : os.World)
      → 0 < fuel
      → forgets.is_open w sockfd ≡ false
      → (w' : os.World) × (session os fuel rounds sockfd buflen (suc turns) s w ≡ (exit 1, w'))
  unfolding session
  session-exits turns s w pos e =
      ((os.select (0 ∷ sockfd ∷ []) none w).1, rw (select-exits fuel w pos e) refl)

  -- The connection is closed, or the process ends in the attempt; then the next round ends it.
  close-exits :
      (turns : ℕ) (s : Session) (w : os.World)
      → 0 < fuel
      → (w' : os.World) × ((Wrap.close os sockfd
              >> session os fuel rounds sockfd buflen (suc turns) s)
            w
          ≡ (exit 1, w'))
  unfolding Wrap.close Wrap.check_done
  close-exits turns s w pos = elim (Bool-cases (os.close sockfd w).0) [
    | inl done ↦
        let (w', run) =
          session-exits turns s (os.close sockfd w).1 pos (forgets.close_closes sockfd w done) in
        (w', rw done run)
    | inr failed ↦ ((os.close sockfd w).1, rw failed refl)
  ]

  -- On a machine on which `select` fails for a closed descriptor: an answer that does not start with
  -- a plus, an error of the server included, ends the client with status 1, in the next round of its
  -- loop if not before.
  pub answered-exits :
      (turns : ℕ) (abort : Bool) (filename bs : List ℕ) (w : os.World)
      → 0 < fuel
      → first_byte bs ≢ b'+'
      → (w' : os.World) × (answered os fuel rounds sockfd buflen
            (session os fuel rounds sockfd buflen (suc turns))
            abort
            filename
            bs
            w
          ≡ (exit 1, w'))
  unfolding answered manage_error
  answered-exits turns abort filename bs w pos no_plus = elim (Bool-cases (first_byte bs == b'-')) [
    | inl minus ↦
        let (w', run) =
          close-exits turns (record { receive_buffer = some bs; abort = abort }) w pos in
        (w', rw minus run)
    | inr no_minus ↦
        let (w', run) =
          close-exits turns (record { receive_buffer = some bs; abort = true }) w pos in
        (w', rw (no_minus, ne→not_== (first_byte bs) b'+' no_plus) run)
  ]
