-- ===== src/Sockwrap/Lines/Loop.antt =====
-- The loop of `readline` over any source of bytes.
use dp.Base.{
  ℕ, zero, suc, ◌+◌, ◌≡◌, refl, ◌∙◌, arith, Bool, true, false, ◌||◌, ◌&&◌, some, List, [], ◌∷◌,
  ◌++◌, length, drop, ltb, ◌==◌, if◌then◌else◌, append-nil, append_assoc, length-append, Bool-cases,
  subst, inl, inr,
}
use dp.Os.Io.{Io, Result, ok}
use dp.Sockwrap.Lines.{NextChar, char, at_end, LineResult, line_round, line_loop}

-- The bytes up to the first newline, which is included, and at most `limit` of them.
unfoldable pub take_line : ℕ → List ℕ → List ℕ
take_line zero bs = []
take_line (suc limit) [] = []
take_line (suc limit) (c ∷ cs) = if c == 10 then c ∷ [] else c ∷ take_line limit cs

-- There is a newline among the first `limit` bytes.
unfoldable pub newline_within : ℕ → List ℕ → Bool
newline_within zero bs = false
newline_within (suc limit) [] = false
newline_within (suc limit) (c ∷ cs) = c == 10 || newline_within limit cs

-- What `readline` returns after `k` bytes were stored: the number of all bytes of a line that ends
-- in a newline, 0 at the end of the stream, and one more than the number of bytes otherwise.
unfoldable pub line_count : ℕ → ℕ → List ℕ → ℕ
line_count k limit bs =
    let n = k + length (take_line limit bs) in
    if newline_within limit bs then n else if n == 0 && ltb 0 limit then 0 else n + 1

line_count-zero : (k : ℕ) (bs : List ℕ) → line_count k 0 bs ≡ k + 1
unfolding line_count take_line newline_within
line_count-zero k bs = ground arith

line_count-nil : (k limit : ℕ) → line_count k (suc limit) [] ≡ (if k == 0 then 0 else k + 1)
unfolding line_count take_line newline_within
line_count-nil k limit = ground arith

line_count_newline :
    (k limit c : ℕ) (cs : List ℕ) → (c == 10) ≡ true → line_count k (suc limit) (c ∷ cs) ≡ k + 1
unfolding line_count take_line newline_within
line_count_newline k limit c cs h = ground arith

line_count_other :
    (k limit c : ℕ) (cs : List ℕ)
    → (c == 10) ≡ false
    → line_count k (suc limit) (c ∷ cs) ≡ line_count (k + 1) limit cs
unfolding line_count take_line newline_within
line_count_other k limit c cs h = ground arith

take_line_newline :
    (limit c : ℕ) (cs : List ℕ) → (c == 10) ≡ true → take_line (suc limit) (c ∷ cs) ≡ c ∷ []
unfolding take_line
take_line_newline limit c cs h = rw h refl

take_line_other :
    (limit c : ℕ) (cs : List ℕ)
    → (c == 10) ≡ false
    → take_line (suc limit) (c ∷ cs) ≡ c ∷ take_line limit cs
unfolding take_line
take_line_other limit c cs h = rw h refl

module _ {W S : Type 0} (next : S → Io W (NextChar × S)) (pending : S → W → List ℕ)
    (Good : S → W → Type 0) where
  -- The call has given the first of the pending bytes.
  abbrev pub Gives : List ℕ → Result (NextChar × S) × W → Type 0
  Gives [] run =
      (s' : S) × (w' : W) × (run ≡ (ok (at_end, s'), w')) × (pending s' w' ≡ []) × Good s' w'
  Gives (c ∷ cs) run =
      (s' : S) × (w' : W) × (run ≡ (ok (char c, s'), w')) × (pending s' w' ≡ cs) × Good s' w'

  abbrev pub ReadsLine : ℕ → List ℕ → List ℕ → S → W → Type 0
  ReadsLine limit stored bs s w =
      (s' : S) × (w' : W) × (line_loop next limit stored s w
        ≡ (ok (some (line_count (length stored) limit bs, stored ++ take_line limit bs), s'), w'))
      × (pending s' w' ≡ drop (length (take_line limit bs)) bs)
      × Good s' w'

  end_round :
      (again : List ℕ → S → Io W (LineResult × S)) (stored : List ℕ) (s : S) (w : W)
      → line_round next again stored (at_end, s) w
        ≡ (ok (some ((if length stored == 0 then 0 else length stored + 1), stored), s), w)
  unfolding line_round
  end_round again stored s w = elim (Bool-cases (length stored == 0)) [
    | inl h ↦ rw h refl
    | inr h ↦ rw h refl
  ]

  module _ (law : (s : S) (w : W) → Good s w → Gives (pending s w) (next s w)) where
    pub line_loop-ReadsLine :
        (limit : ℕ) (stored bs : List ℕ) (s : S) (w : W)
        → pending s w ≡ bs
        → Good s w
        → ReadsLine limit stored bs s w
    unfolding line_loop line_round
    line_loop-ReadsLine zero stored bs s w e good = (
      s,
      w,
      unfold take_line in rw (line_count-zero (length stored) bs, append-nil) refl,
      unfold take_line in e,
      good,
    )
    line_loop-ReadsLine (suc limit) stored [] s w e good =
        let (s', w', run, rest, good') = subst (λ t. Gives t (next s w)) e (law s w good) in
        (
          s',
          w',
          unfold take_line in
              rw (run, line_count-nil (length stored) limit, append-nil)
                (end_round (line_loop next limit) stored s' w'),
          unfold take_line in rest,
          good',
        )
    line_loop-ReadsLine (suc limit) stored (c ∷ cs) s w e good =
        let (s', w', run, rest, good') = subst (λ t. Gives t (next s w)) e (law s w good) in
        elim (Bool-cases (c == 10)) [
          | inl newline ↦ (
            s',
            w',
            rw
                (
                  run,
                  newline,
                  line_count_newline (length stored) limit c cs newline,
                  take_line_newline limit c cs newline,
                )
                refl,
            rw (take_line_newline limit c cs newline) rest,
            good',
          )
          | inr other ↦
              let (s2, w2, run2, rest2, good2) =
                line_loop-ReadsLine limit (stored ++ (c ∷ [])) cs s' w' rest good' in
              (
                s2,
                w2,
                rw
                    (
                      run,
                      other,
                      line_count_other (length stored) limit c cs other,
                      take_line_other limit c cs other,
                    )
                    (run2 ∙ rw (length-append stored (c ∷ []), append_assoc stored (c ∷ [])) refl),
                rw (take_line_other limit c cs other) rest2,
                good2,
              )
        ]
