-- ===== src/Base/Scan.antt =====
-- What the programs use of <string.h> and <stdio.h> on C strings: a string is the bytes before its
-- terminator.
use Prim.Native.Nat.{ℕ, ◌<◌}
use mathlib.Core.Path.{◌≡◌, refl, ap, ◌∙◌}
use mathlib.Core.Bool.{Bool, true, false, ◌&&◌, ◌||◌}
use mathlib.Core.Option.{Option, none, some}
use mathlib.Core.List.{List, [], ◌∷◌, ◌++◌}
use native.Mathlib.Omega.{arith}
use dp.Base.Tests.{ltb, leb, ◌==◌, if◌then◌else◌, lt→ltb}
use mathlib.Core.Logic.{◌≢◌}
use dp.Base.Lists.{length}

-- The bytes before the first NUL; `none` if there is none.
unfoldable pub before_nul : List ℕ → Option (List ℕ)
before_nul [] = none
before_nul (c ∷ cs) =
    let rest = before_nul cs in
    if c == 0 then some [] else elim rest [ none ↦ none | some s ↦ some (c ∷ s) ]

-- The bytes of a zeroed array of `size` bytes after `bs` were stored at its start, read as a string.
-- There is no terminator, and reading on is undefined, if `bs` fill the array and hold no NUL.
unfoldable pub string_in : ℕ → List ℕ → Option (List ℕ)
unfolding before_nul
string_in size bs = before_nul (if ltb (length bs) size then bs ++ (0 ∷ []) else bs)

-- `strncmp(s, prefix, strlen(prefix)) == 0`
unfoldable pub starts_with : List ℕ → List ℕ → Bool
starts_with [] s = true
starts_with (p ∷ ps) [] = false
starts_with (p ∷ ps) (c ∷ cs) = p == c && starts_with ps cs

-- `isspace` in the C locale
unfoldable pub is_space : ℕ → Bool
is_space c = c == 32 || (leb 9 c && leb c 13)

unfoldable pub skip_spaces : List ℕ → List ℕ
unfolding is_space
skip_spaces [] = []
skip_spaces (c ∷ cs) = let rest = skip_spaces cs in if is_space c then rest else c ∷ cs

-- The longest run of bytes that are no white space, and what follows it.
unfoldable pub span_word : List ℕ → List ℕ × List ℕ
unfolding is_space
span_word [] = ([], [])
span_word (c ∷ cs) =
    let rest = span_word cs in if is_space c then ([], c ∷ cs) else (c ∷ rest.0, rest.1)

-- What `sscanf(s, "%s %s", a, b)` stores. `none` of it if the string has no word.
pub data Scanned : Type 0 where
  no_word : Scanned
  one_word : List ℕ → Scanned
  two_words : List ℕ → List ℕ → Scanned

scan_second : List ℕ → List ℕ → Scanned
scan_second first [] = one_word first
scan_second first (c ∷ cs) = two_words first (span_word (c ∷ cs)).0

scan_first : List ℕ → Scanned
unfolding scan_second
scan_first [] = no_word
scan_first (c ∷ cs) = let split = span_word (c ∷ cs) in scan_second split.0 (skip_spaces split.1)

unfoldable pub scan_two_words : List ℕ → Scanned
unfolding scan_first skip_spaces span_word
scan_two_words s = scan_first (skip_spaces s)

abbrev pub IsWord : List ℕ → Type 0
IsWord [] = Unit
IsWord (c ∷ cs) = (is_space c ≡ false) × IsWord cs

pub span_word-append :
    (word rest : List ℕ) (c : ℕ)
    → IsWord word
    → is_space c ≡ true
    → span_word (word ++ (c ∷ rest)) ≡ (word, c ∷ rest)
unfolding span_word
span_word-append [] rest c h sp = ground arith
span_word-append (x ∷ xs) rest c h sp = ground (arith, span_word-append xs rest c h.1 sp)

pub skip_spaces_word : (c : ℕ) (cs : List ℕ) → is_space c ≡ false → skip_spaces (c ∷ cs) ≡ c ∷ cs
unfolding skip_spaces
skip_spaces_word c cs h = ground arith

pub skip_spaces_space :
    (c : ℕ) (cs : List ℕ) → is_space c ≡ true → skip_spaces (c ∷ cs) ≡ skip_spaces cs
unfolding skip_spaces
skip_spaces_space c cs h = ground arith

space : is_space 32 ≡ true
unfolding is_space
space = refl

-- Two words, a space between them and white space after the second, are read back.
pub scan_two_words-pair :
    (x y : ℕ) (a b rest : List ℕ) (c : ℕ)
    → IsWord (x ∷ a)
    → IsWord (y ∷ b)
    → is_space c ≡ true
    → scan_two_words ((x ∷ a) ++ (32 ∷ ((y ∷ b) ++ (c ∷ rest)))) ≡ two_words (x ∷ a) (y ∷ b)
unfolding scan_two_words
scan_two_words-pair x y a b rest c hx hy sp =
    let tail : List ℕ = (y ∷ b) ++ (c ∷ rest) in
    ap scan_first (skip_spaces_word x (a ++ (32 ∷ tail)) hx.0)
    ∙ ap (λ (split : List ℕ × List ℕ). scan_second split.0 (skip_spaces split.1))
        (span_word-append (x ∷ a) tail 32 hx space)
    ∙ ap (scan_second (x ∷ a))
        (skip_spaces_space 32 tail space ∙ skip_spaces_word y (b ++ (c ∷ rest)) hy.0)
    ∙ ap (λ (split : List ℕ × List ℕ). two_words (x ∷ a) split.0)
        (span_word-append (y ∷ b) rest c hy sp)

-- No byte is NUL.
abbrev pub IsText : List ℕ → Type 0
IsText [] = Unit
IsText (c ∷ cs) = (c ≢ 0) × IsText cs

pub IsText-append : (xs ys : List ℕ) → IsText xs → IsText ys → IsText (xs ++ ys)
IsText-append [] ys hx hy = hy
IsText-append (x ∷ xs) ys hx hy = (hx.0, IsText-append xs ys hx.1 hy)

pub before_nul-append : (xs : List ℕ) → IsText xs → before_nul (xs ++ (0 ∷ [])) ≡ some xs
unfolding before_nul
before_nul-append [] h = refl
before_nul-append (x ∷ xs) h = ground (arith, before_nul-append xs h.1, h.0)

-- A text that leaves room for a terminator is read as a string.
pub string_in_text :
    (size : ℕ) (xs : List ℕ) → length xs < size → IsText xs → string_in size xs ≡ some xs
unfolding string_in
string_in_text size xs h text = rw (lt→ltb (length xs) size h) (before_nul-append xs text)
