-- ===== src/Square/Rfc/Range.antt =====
-- What the codec of RFC 4506 reads is in range.
use dp.Base.{
  ℕ, zero, suc, ◌+◌, ◌*◌, ◌≤◌, ◌<◌, ◌≡◌, refl, sym, ap, ◌∙◌, subst, arith, Option, none, some, List,
  [], ◌∷◌, length, leb, inl, inr, Bool-cases,
}
use mathlib.Core.Option.{none-ne-some, some-injective}
use dp.Base.Int.{ℤ, IsHyper, AllHyper}
use dp.Base.Words.{u32_mod}
use dp.Square.Rfc.{
  u64_mod, of_word, get_u32, join_words, after_high, get_hyper, cons_got, get_next, get_all,
  get_elements, first_of,
}

-- What is decoded is in range, and was read from the front.
pub get_u32_bound :
    (bs : List ℕ) (n : ℕ) (rest : List ℕ)
    → get_u32 bs ≡ some (n, rest)
    → (n < u32_mod) × (length bs ≡ 4 + length rest)
unfolding get_u32
get_u32_bound [] n rest e = absurd (none-ne-some _ e)
get_u32_bound (a ∷ []) n rest e = absurd (none-ne-some _ e)
get_u32_bound (a ∷ b ∷ []) n rest e = absurd (none-ne-some _ e)
get_u32_bound (a ∷ b ∷ c ∷ []) n rest e = absurd (none-ne-some _ e)
get_u32_bound (a ∷ b ∷ c ∷ d ∷ tail) n rest e =
    let same = some-injective _ _ e in
    (
      omega (arith, ap (λ (p : ℕ × List ℕ). p.0) same),
      omega (arith, ap (λ (p : ℕ × List ℕ). length p.1) same),
    )

pub of_word-IsHyper : (x : ℕ) → x < u64_mod → IsHyper (of_word x)
unfolding of_word
of_word-IsHyper x h = ground arith

-- The value of a pair, from an equation of pairs.
abbrev pub IsRead : ℕ → ℤ → List ℕ → Type 0
IsRead size v rest = IsHyper v × (size ≡ 8 + length rest)

pub low_bound :
    (middle : List ℕ) (high : ℕ) (o : Option (ℕ × List ℕ)) (v : ℤ) (rest : List ℕ)
    → high < u32_mod
    → get_u32 middle ≡ o
    → join_words high o ≡ some (v, rest)
    → IsRead (4 + length middle) v rest
unfolding join_words
low_bound middle high none v rest h e e' = absurd (none-ne-some _ e')
low_bound middle high (some (low, tail)) v rest h e e' =
    let (small, len) = get_u32_bound middle low tail e in
    let same = some-injective _ _ e' in
    (
      subst IsHyper (ap (λ (p : ℤ × List ℕ). p.0) same)
          (of_word-IsHyper (high * u32_mod + low) (omega arith)),
      omega (arith, ap (λ (p : ℤ × List ℕ). length p.1) same),
    )

pub high_bound :
    (bs : List ℕ) (o : Option (ℕ × List ℕ)) (v : ℤ) (rest : List ℕ)
    → get_u32 bs ≡ o
    → after_high o ≡ some (v, rest)
    → IsRead (length bs) v rest
unfolding after_high
high_bound bs none v rest e e' = absurd (none-ne-some _ e')
high_bound bs (some (high, middle)) v rest e e' =
    let (small, len) = get_u32_bound bs high middle e in
    subst (λ n. IsRead n v rest) (sym len)
      (low_bound middle high (get_u32 middle) v rest small refl e')

pub get_hyper_bound :
    (bs : List ℕ) (v : ℤ) (rest : List ℕ)
    → get_hyper bs ≡ some (v, rest)
    → IsRead (length bs) v rest
unfolding get_hyper
get_hyper_bound bs v rest e = high_bound bs (get_u32 bs) v rest refl e

abbrev pub IsReadAll : ℕ → ℕ → List ℤ → List ℕ → Type 0
IsReadAll size n vs rest = AllHyper vs × (length vs ≡ n) × (size ≡ 8 * n + length rest)

-- What `get_all` has read is `n` numbers in range.
abbrev pub AllBound : ℕ → Type 0
AllBound n =
    (bs : List ℕ) (vs : List ℤ) (rest : List ℕ)
    → get_all n bs ≡ some (vs, rest)
    → IsReadAll (length bs) n vs rest

pub tail_bound :
    (n : ℕ)
    → AllBound n
    → (middle : List ℕ) (v : ℤ) (o : Option (List ℤ × List ℕ)) (vs : List ℤ) (rest : List ℕ)
    → IsHyper v
    → get_all n middle ≡ o
    → cons_got v o ≡ some (vs, rest)
    → IsReadAll (8 + length middle) (suc n) vs rest
unfolding cons_got
tail_bound n ih middle v none vs rest h e e' = absurd (none-ne-some _ e')
tail_bound n ih middle v (some (us, tail)) vs rest h e e' =
    let (range, count, len) = ih middle us tail e in
    let same = some-injective _ _ e' in
    (
      subst AllHyper (ap (λ (p : List ℤ × List ℕ). p.0) same) (h, range),
      sym (ap (λ (p : List ℤ × List ℕ). length p.0) same) ∙ omega arith,
      omega (arith, ap (λ (p : List ℤ × List ℕ). length p.1) same),
    )

pub next_bound :
    (n : ℕ)
    → AllBound n
    → (bs : List ℕ) (o : Option (ℤ × List ℕ)) (vs : List ℤ) (rest : List ℕ) → get_hyper bs ≡ o
    → get_next (get_all n) o ≡ some (vs, rest)
    → IsReadAll (length bs) (suc n) vs rest
unfolding get_next
next_bound n ih bs none vs rest e e' = absurd (none-ne-some _ e')
next_bound n ih bs (some (v, middle)) vs rest e e' =
    let (range, len) = get_hyper_bound bs v middle e in
    subst (λ size. IsReadAll size (suc n) vs rest) (sym len)
      (tail_bound n ih middle v (get_all n middle) vs rest range refl e')

pub get_all-AllBound : (n : ℕ) → AllBound n
unfolding get_all
get_all-AllBound zero bs vs rest e =
    let same = some-injective _ _ e in
    (
      subst AllHyper (ap (λ (p : List ℤ × List ℕ). p.0) same) tt,
      sym (ap (λ (p : List ℤ × List ℕ). length p.0) same),
      omega (arith, ap (λ (p : List ℤ × List ℕ). length p.1) same),
    )
get_all-AllBound (suc n) bs vs rest e =
    next_bound n (get_all-AllBound n) bs (get_hyper bs) vs rest refl e

pub first_inverse :
    {A : Type 0} (o : Option (A × List ℕ)) (a : A)
    → first_of o ≡ some a
    → (rest : List ℕ) × (o ≡ some (a, rest))
unfolding first_of
first_inverse none a e = absurd (none-ne-some _ e)
first_inverse (some (b, rest)) a e = (rest, ap (λ t. some (t, rest)) (some-injective _ _ e))

pub elements_bound :
    (limit : ℕ) (bs : List ℕ) (o : Option (ℕ × List ℕ)) (vs : List ℤ) (rest : List ℕ)
    → get_u32 bs ≡ o
    → get_elements limit o ≡ some (vs, rest)
    → AllHyper vs × (length vs ≤ limit) × (4 + 8 * length vs ≤ length bs)
unfolding get_elements
elements_bound limit bs none vs rest e e' = absurd (none-ne-some _ e')
elements_bound limit bs (some (n, middle)) vs rest e e' =
    let (small, len) = get_u32_bound bs n middle e in
    elim (Bool-cases (leb n limit)) [
      | inl fits ↦
          let (range, count, size) = get_all-AllBound n middle vs rest (rw fits at e') in
          (range, ground arith, omega arith)
      | inr long ↦ absurd (none-ne-some _ (rw long at e'))
    ]
