-- ===== src/FileServer/Service/Text.antt =====
-- What a text that is read whole asks for.
use dp.Base.{ℕ, ◌<◌, ◌≡◌, refl, true, List, [], ◌∷◌, ◌++◌, length, lt→ltb}
use dp.Base.Scan.{IsWord, is_space, starts_with, scan_two_words, scan_two_words-pair}
use dp.FileServer.Defs.{get_word, filename_len}
use dp.FileServer.Service.{get, parse_request, request_of_words, fits_get}

-- The bytes of a request for a file, and what follows them.
abbrev pub get_then : List ℕ → List ℕ → List ℕ
get_then filename rest = get_word ++ (32 ∷ (filename ++ (13 ∷ 10 ∷ rest)))

newline_space : is_space 13 ≡ true
unfolding is_space
newline_space = refl

get_word-IsWord : IsWord get_word
unfolding is_space
get_word-IsWord = (refl, (refl, (refl, tt)))

-- A text that starts with a request for a name that fits its array is that request, whatever
-- follows: a second request that was read with the first one is not seen.
pub parse_request-get_then :
    (c : ℕ) (cs rest : List ℕ)
    → IsWord (c ∷ cs)
    → length (c ∷ cs) < filename_len
    → parse_request (get_then (c ∷ cs) rest) ≡ get (c ∷ cs)
unfolding parse_request request_of_words fits_get starts_with scan_two_words
parse_request-get_then c cs rest word fits =
    rw
      (scan_two_words-pair b'G' c (b'E' ∷ b'T' ∷ []) cs (10 ∷ rest) 13 get_word-IsWord word
        newline_space)
      (rw (lt→ltb (length (c ∷ cs)) filename_len fits) refl)
