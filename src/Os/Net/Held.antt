-- ===== src/Os/Net/Held.antt =====
-- What the files hold, whatever descriptors are opened, closed and used again.
use dp.Base.{
  ℕ, ◌≡◌, ◌≢◌, refl, sym, ap, ap₂, ◌∙◌, arith, Bool, true, false, ◌||◌, Option, none, some, List,
  [], ◌∷◌, ◌++◌, drop, length, ==_self, if◌then◌else◌, drop-append,
}
use dp.Os.Calls.{Fd, FileName}
use dp.Os.Net.{
  Net, Change, by, kept, consume, emit, arrive, shut, created, stored, held, same_name,
  settle_change, content_now, content_or_nil,
}

-- No file is open for writing.
abbrev pub NoneOpen : Net → Type 0
NoneOpen s = (name : FileName) (fd : Fd) → s.written name ≢ some (by fd)

-- The bytes over the front of what was there.
abbrev pub over : List ℕ → List ℕ → List ℕ
over bs old = bs ++ drop (length bs) old

-- The file of the name holds the bytes over what it held, and no other file has changed.
abbrev pub Saved : FileName → List ℕ → Net → Net → Type 0
Saved name bs s s' =
    (other : FileName)
    → held other s' ≡ (if same_name other name then over bs (held name s) else held other s)

-- What is held through no descriptor does not depend on what the descriptors are used for.
held_settled :
    (found : List ℕ) (change : Option Change) (through through' : Fd → List ℕ)
    → ((fd : Fd) → change ≢ some (by fd))
    → content_now through found change ≡ content_now through' found change
unfolding content_now
held_settled found none through through' h = refl
held_settled found (some (by fd)) through through' h = absurd (h fd refl)
held_settled found (some (kept bs)) through through' h = refl

pub held-emit :
    (fd : ℕ) (bs : List ℕ) (name : FileName) (s : Net)
    → NoneOpen s
    → held name (emit fd bs s) ≡ held name s
unfolding held emit
held-emit fd bs name s h = held_settled _ (s.written name) _ _ (h name)

pub held-arrive :
    (fd : ℕ) (bs : List ℕ) (name : FileName) (s : Net) → held name (arrive fd bs s) ≡ held name s
unfolding held stored arrive
held-arrive fd bs name s = refl

pub written-emit : (fd : ℕ) (bs : List ℕ) (s : Net) → (emit fd bs s).written ≡ s.written
unfolding emit
written-emit fd bs s = refl

pub written-arrive : (fd : ℕ) (bs : List ℕ) (s : Net) → (arrive fd bs s).written ≡ s.written
unfolding arrive
written-arrive fd bs s = refl

pub NoneOpen-same : (s s' : Net) → s'.written ≡ s.written → NoneOpen s → NoneOpen s'
NoneOpen-same s s' e h name fd again = h name fd (sym (ap (λ t. t name) e) ∙ again)

settle_change_closed :
    (fd : Fd) (bs : List ℕ) (change : Option Change)
    → ((d : Fd) → change ≢ some (by d))
    → settle_change fd bs change ≡ change
unfolding settle_change
settle_change_closed fd bs none h = refl
settle_change_closed fd bs (some (by d)) h = absurd (h d refl)
settle_change_closed fd bs (some (kept cs)) h = refl

module _ (fd j n : ℕ) (name bs : List ℕ) (s : Net) where
  -- The files after one was written and closed.
  abbrev pub saved : Net
  saved = shut fd (emit fd bs (consume j n (created fd name (held name s) s)))

  saved_written :
      (other : FileName)
      → saved.written other ≡ (
          if same_name other name
          then some (kept (over bs (held name s)))
          else settle_change fd (over bs (held name s)) (s.written other))
  unfolding shut emit consume created stored settle_change
  saved_written other = ground (arith, ==_self fd)

  saved_other :
      (other : FileName)
      → NoneOpen s
      → saved.written other
        ≡ (if same_name other name then some (kept (over bs (held name s))) else s.written other)
  saved_other other h =
      saved_written other
      ∙ ap (λ t. if same_name other name then some (kept (over bs (held name s))) else t)
          (settle_change_closed fd (over bs (held name s)) (s.written other) (h other))

  -- The file holds the bytes over what it held before, and no other file is touched.
  pub held-saved :
      (other : FileName)
      → NoneOpen s
      → held other saved ≡ (if same_name other name then over bs (held name s) else held other s)
  unfolding held shut emit consume created content_now
  held-saved other h =
      ap (content_now (λ d. stored d saved) (content_or_nil (saved.disk other)))
        (saved_other other h)
      ∙ chosen (same_name other name)
    where
      chosen :
          (b : Bool)
          → content_now
              (λ d. stored d saved)
              (content_or_nil (saved.disk other))
              (if b then some (kept (over bs (held name s))) else s.written other)
            ≡ (if b then over bs (held name s) else held other s)
      chosen true = refl
      chosen false = held_settled _ (s.written other) _ _ (h other)

  pub saved-NoneOpen : NoneOpen s → NoneOpen saved
  saved-NoneOpen h other d e = chosen (same_name other name) (sym (saved_other other h) ∙ e)
    where
      chosen :
          (b : Bool)
          → (if b then some (kept (over bs (held name s))) else s.written other) ≢ some (by d)
      chosen true again = cc
      chosen false again = h other d again

-- Equal names are the same name.
pub same_name-eq : (name other : FileName) → same_name name other ≡ true → name ≡ other
unfolding same_name
same_name-eq [] [] e = refl
same_name-eq [] (d ∷ ds) e = cc
same_name-eq (c ∷ cs) [] e = cc
same_name-eq (c ∷ cs) (d ∷ ds) e = grind (arith, same_name-eq cs ds)

-- Written twice, the bytes are there once.
pub over-over : (bs old : List ℕ) → over bs (over bs old) ≡ over bs old
over-over bs old = ap (λ t. bs ++ t) (drop-append bs (drop (length bs) old))

-- Saving may start from a later state, in which every file holds the same.
pub Saved-from :
    (name : FileName) (bs : List ℕ) (s s1 s2 : Net)
    → ((other : FileName) → held other s1 ≡ held other s)
    → Saved name bs s1 s2
    → Saved name bs s s2
Saved-from name bs s s1 s2 same saves other =
    saves other
    ∙ ap₂ (λ x y. if same_name other name then over bs x else y) (same name) (same other)

-- A request that is written and an answer that comes leave the files alone.
pub held-heard :
    (fd : ℕ) (text answer : List ℕ) (name : FileName) (s : Net)
    → NoneOpen s
    → held name (arrive fd answer (emit fd text s)) ≡ held name s
held-heard fd text answer name s h =
    held-arrive fd answer name (emit fd text s) ∙ held-emit fd text name s h

pub heard-NoneOpen :
    (fd : ℕ) (text answer : List ℕ) (s : Net)
    → NoneOpen s
    → NoneOpen (arrive fd answer (emit fd text s))
heard-NoneOpen fd text answer s h =
    NoneOpen-same s (arrive fd answer (emit fd text s))
      (written-arrive fd answer (emit fd text s) ∙ written-emit fd text s) h

-- Whether a name is in a list of names.
unfoldable pub listed : FileName → List FileName → Bool
listed name [] = false
listed name (other ∷ names) = same_name name other || listed name names

-- Every file of the names has the content that is given for it over what it held, and no other file
-- has changed.
abbrev pub Holds : (FileName → List ℕ) → List FileName → Net → Net → Type 0
Holds content names s s' =
    (name : FileName)
    → held name s' ≡ (if listed name names then over (content name) (held name s) else held name s)

-- One file is saved, and then the others.
pub Saved-Holds :
    (content : FileName → List ℕ) (first : FileName) (names : List FileName) (s s1 s2 : Net)
    → Saved first (content first) s s1
    → Holds content names s1 s2
    → Holds content (first ∷ names) s s2
unfolding listed
Saved-Holds content first names s s1 s2 saved_first rest name =
    rest name
    ∙ joined (same_name name first) (listed name names) (saved_first name) (same_name-eq name first)
  where
    joined :
        (here there : Bool)
        → held name s1 ≡ (if here then over (content first) (held first s) else held name s)
        → (here ≡ true → name ≡ first)
        → (if there then over (content name) (held name s1) else held name s1)
          ≡ (if here || there then over (content name) (held name s) else held name s)
    joined true true e same =
        ap (over (content name)) (e ∙ ap (λ n. over (content n) (held n s)) (sym (same refl)))
        ∙ over-over (content name) (held name s)
    joined true false e same = e ∙ ap (λ n. over (content n) (held n s)) (sym (same refl))
    joined false true e same = ap (over (content name)) e
    joined false false e same = e
