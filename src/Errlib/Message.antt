-- ===== src/Errlib/Message.antt =====
-- `err_doit` of errlib.c: how the message is put together in its buffer.
use dp.Base.{
  ℕ, zero, suc, ◌+◌, ◌-◌, ◌≤◌, ◌≡◌, refl, ap, ◌∙◌, arith, Bool, true, false, Option, none, some,
  List, [], ◌∷◌, ◌++◌, length, take, leb, length-take, append-nil, if◌then◌else◌,
}

-- MAXLINE of errlib.c; the buffer has one byte more.
abbrev pub max_line : ℕ
max_line = 4095

-- `snprintf` into `room` bytes, a terminator among them; without room nothing is stored.
unfoldable pub print_into : ℕ → List ℕ → List ℕ
print_into room text = take (room - 1) text

-- `strcat`: `none` if the string and its terminator run past the end of the buffer.
unfoldable pub append_in : ℕ → List ℕ → List ℕ → Option (List ℕ)
append_in size text more =
    if leb (length text + length more + 1) size then some (text ++ more) else none

-- `formatted` is what the format and the arguments give, `reason` what `strerror` gives.
unfoldable pub err_doit : Bool → List ℕ → List ℕ → Option (List ℕ)
unfolding print_into append_in
err_doit errnoflag formatted reason =
    let text = print_into max_line formatted in
    let more =
      if errnoflag then print_into (max_line - length text) (b':' ∷ b' ' ∷ reason) else [] in
    append_in (max_line + 1) (text ++ more) (10 ∷ [])

-- The whole message, before it is cut.
abbrev pub whole : Bool → List ℕ → List ℕ → List ℕ
whole true formatted reason = formatted ++ (b':' ∷ b' ' ∷ reason)
whole false formatted reason = formatted

take-append_cut :
    (n : ℕ) (xs ys : List ℕ) → take n xs ++ take (n - length (take n xs)) ys ≡ take n (xs ++ ys)
take-append_cut zero xs ys = refl
take-append_cut (suc n) [] ys = ap (λ k. take k ys) {y = suc n} (omega arith)
take-append_cut (suc n) (x ∷ xs) ys =
    ap (λ k. x ∷ (take n xs ++ take k ys)) (omega arith) ∙ ap (λ t. x ∷ t) (take-append_cut n xs ys)

append_in_short :
    (size : ℕ) (text more : List ℕ)
    → length text + length more + 1 ≤ size
    → append_in size text more ≡ some (text ++ more)
unfolding append_in
append_in_short size text more h = ground (arith, h)

-- The first bytes of a message and a newline, in a buffer that has room for two bytes more.
newline_fits :
    (n : ℕ) (text : List ℕ)
    → append_in (n + 2) (take n text) (10 ∷ []) ≡ some (take n text ++ (10 ∷ []))
newline_fits n text =
    append_in_short (n + 2) (take n text) (10 ∷ []) (omega (arith, length-take n text))

-- Whatever the message and the reason are and however long: `err_doit` stores nothing past the end of
-- its buffer of 4096 bytes, and the text is the first 4094 bytes of the message, with the reason if
-- it was asked for, and a newline.
pub err_doit-fits :
    (errnoflag : Bool) (formatted reason : List ℕ)
    → err_doit errnoflag formatted reason
      ≡ some (take 4094 (whole errnoflag formatted reason) ++ (10 ∷ []))
unfolding err_doit print_into
err_doit-fits true formatted reason =
    let rest : List ℕ = b':' ∷ b' ' ∷ reason in
    let front = take 4094 formatted in
    ap (λ t. append_in 4096 t (10 ∷ []))
      (ap (λ k. front ++ take k rest) (omega arith) ∙ take-append_cut 4094 formatted rest)
    ∙ newline_fits 4094 (formatted ++ rest)
err_doit-fits false formatted reason =
    ap (λ t. append_in 4096 t (10 ∷ [])) (append-nil (take 4094 formatted))
    ∙ newline_fits 4094 formatted
