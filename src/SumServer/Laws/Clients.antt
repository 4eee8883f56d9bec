-- ===== src/SumServer/Laws/Clients.antt =====
-- A whole connection of `prot_a`.
use dp.Base.{
  ℕ, zero, suc, ◌<◌, ◌≡◌, refl, sym, ap, ◌∙◌, List, [], ◌∷◌, ◌++◌, length, append-nil, append_assoc,
  subst, arith,
}
use dp.Os.Calls.{Fd, Os}
use dp.Os.Io.{ok}
use dp.Os.Net.{Net}
use dp.Os.Net.Laws.{sent-consume}
use dp.Os.Reliable.{Reliable}
use dp.Sockwrap.Lines.Loop.{take_line, newline_within, line_count}
use dp.SumServer.Decimal.{ushort_limit}
use dp.SumServer.{prot_a}
use dp.SumServer.Laws.{LineOutcome, prot_a-Outcome}
use dp.SumServer.Laws.Sums.{request, sum_answer, prot_a-adds}

-- What a client sends for a list of pairs, and what it is to get back.
abbrev pub requests : List (ℕ × ℕ) → List ℕ
requests [] = []
requests (p ∷ ps) = request p.0 p.1 (requests ps)

abbrev pub answers : List (ℕ × ℕ) → List ℕ
answers [] = []
answers (p ∷ ps) = sum_answer p.0 p.1 ++ answers ps

-- Every number has 16 bits.
abbrev pub AllFit : List (ℕ × ℕ) → Type 0
AllFit [] = Unit
AllFit (p ∷ ps) = (p.0 < ushort_limit) × (p.1 < ushort_limit) × AllFit ps

no_line : line_count 0 254 [] ≡ 0
unfolding line_count take_line newline_within
no_line = refl

module _ (os : Os) (r : Reliable os) (fuel : ℕ) (connfd : Fd) where
  -- At the end of the stream.
  prot_a-leaves :
      (turns : ℕ) (w : os.World)
      → 12 < fuel
      → r.patience w ≡ 0
      → (r.view w).incoming connfd ≡ []
      → (w' : os.World) × (prot_a os fuel connfd (suc turns) w ≡ (ok 0, w'))
        × ((r.view w').sent connfd ≡ (r.view w).sent connfd)
  prot_a-leaves turns w enough quiet ended =
      let stream = (r.view w).incoming connfd in
      let (w1, moved, outcome) = prot_a-Outcome os r fuel connfd turns w enough quiet in
      let (w', run, same) =
        subst
          (λ t.
            LineOutcome os r fuel connfd (prot_a os fuel connfd turns) (r.view w1) t
              (take_line 254 stream) (prot_a os fuel connfd (suc turns) w))
          (ap (line_count 0 254) ended ∙ no_line) outcome in
      (
        w',
        run,
        ap (λ (t : Net). t.sent connfd) (same ∙ moved)
            ∙ sent-consume connfd (length (take_line 254 stream)) connfd (r.view w),
      )

  -- For every list of pairs that a client sends, whatever the numbers of 16 bits in it, one turn for
  -- each and one more are enough for the server to send the sums, in order, each in decimal or as an
  -- overflow if it has more than 16 bits, and to return when the client has closed its side. No
  -- signal comes.
  pub prot_a-serves :
      (pairs : List (ℕ × ℕ)) (turns : ℕ) (w : os.World)
      → AllFit pairs
      → length pairs < turns
      → 12 < fuel
      → r.patience w ≡ 0
      → (r.view w).incoming connfd ≡ requests pairs
      → (w' : os.World) × (prot_a os fuel connfd turns w ≡ (ok 0, w'))
        × ((r.view w').sent connfd ≡ (r.view w).sent connfd ++ answers pairs)
  prot_a-serves pairs zero w fit room enough quiet here = absurd (omega arith)
  prot_a-serves [] (suc turns) w fit room enough quiet here =
      let (w', run, same) = prot_a-leaves turns w enough quiet here in
      (w', run, same ∙ sym (append-nil ((r.view w).sent connfd)))
  prot_a-serves (p ∷ ps) (suc turns) w fit room enough quiet here =
      let (w1, run1, rest, sent1, still) =
        prot_a-adds os r fuel connfd p.0 p.1 (requests ps) turns w fit.0 fit.1 enough quiet here in
      let (w', run, sent) = prot_a-serves ps turns w1 fit.2 (omega arith) enough still rest in
      (
        w',
        run1 ∙ run,
        sent
            ∙ ap (λ t. t ++ answers ps) sent1
            ∙ append_assoc ((r.view w).sent connfd) (sum_answer p.0 p.1) (answers ps),
      )
