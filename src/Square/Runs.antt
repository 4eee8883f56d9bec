-- ===== src/Square/Runs.antt =====
-- Runs of the square servers and clients, and the theorems at concrete inputs.
use dp.Base.{ℕ, zero, suc, ◌≡◌, refl, arith, true, false, some, List, [], ◌∷◌, ◌++◌, replicate}
use dp.Base.Int.{ℤ, pos, negsuc}
use dp.Base.Words.{htonl_bytes, ntohl_bytes}
use dp.Os.Io.{ok}
use dp.Square.Udp.{Datagram}
use dp.Square.Rfc.{
  put_hyper, put_all, put_sequence, get_u32, get_hyper, after_high, join_words, of_word, first_of,
  get_sequence, get_elements, get_all, get_next, cons_got, rfc_hyper, rfc_sequence,
}
use dp.Square.Rfc.Laws.{rfc_hyper-HyperLaws, rfc_sequence-SequenceLaws}
use dp.Square.Post.{Post, in_use, post, memory, post_laws, memory_laws, mail, alice, letter}
use dp.Square.Simple.{serve}
use dp.Square.Simple.Replies.{Replied, serve-Replied}
use dp.Square.Sequences.{service_freeing, service_keeping, service_static}
use dp.Square.Sequences.Memory.{Clean, service_freeing-Clean}
use dp.Square.Sequences.Leak.{StillLive, service_keeping-leaks}
use dp.Square.Sequences.Squares.{AllSquaresFit, map_squared}
use dp.Square.Sequences.Replies.{Plenty, service_static-replies, service_freeing-replies}

-- A number, bytes that are none, and a negative number.
abbrev letters : List Datagram
letters = letter (put_hyper (pos 12)) ∷ letter (7 ∷ []) ∷ letter (put_hyper (negsuc 2)) ∷ []

serve-Replied_example :
    (es : List Datagram) × (w' : Post) × (serve rfc_hyper post 3 3 (mail letters) ≡ (ok tt, w'))
    × Replied rfc_hyper letters es
    × (w'.gone ≡ [] ++ es)
    × (w'.waiting ≡ [])
unfolding put_hyper htonl_bytes get_hyper get_u32 after_high join_words of_word ntohl_bytes first_of
serve-Replied_example =
    serve-Replied rfc_hyper rfc_hyper-HyperLaws post 3 (post_laws 3) letters (mail letters) refl
      (omega arith, (tt, (omega arith, tt)))

abbrev two_numbers : Datagram
two_numbers = letter (put_sequence (pos 3 ∷ negsuc 4 ∷ []))

service_freeing-Clean_example :
    Clean
      (rfc_sequence 100)
      post
      3
      memory
      memory_laws
      (in_use (mail []))
      (service_freeing (rfc_sequence 100) post 3 memory two_numbers (mail []))
service_freeing-Clean_example =
    service_freeing-Clean (rfc_sequence 100) post 3 memory memory_laws two_numbers (mail [])

service_keeping-leaks_example :
    (in_use (mail []) 0 ≡ false)
    × StillLive
        (rfc_sequence 100)
        post
        3
        memory
        memory_laws
        0
        (service_keeping (rfc_sequence 100) post 3 memory two_numbers (mail []))
service_keeping-leaks_example =
    service_keeping-leaks (rfc_sequence 100) post 3 memory memory_laws two_numbers 0 (mail []) refl

ones_fit : (n : ℕ) → AllSquaresFit (replicate n (pos 1))
ones_fit zero = tt
ones_fit (suc n) = (omega arith, ones_fit n)

-- As many numbers as a request may have
abbrev hundred : List ℤ
hundred = replicate 100 (pos 1)

service_static-replies_example :
    (e : Datagram) × (w' : Post) × (service_static
        (rfc_sequence 100)
        post
        3
        (letter (put_sequence hundred))
        (mail [])
      ≡ (ok true, w'))
    × (w'.gone ≡ [] ++ (e ∷ []))
    × (e.peer ≡ alice)
    × ((rfc_sequence 100).decode_response e.bytes ≡ some (hundred, map_squared hundred))
unfolding put_sequence put_all put_hyper htonl_bytes get_sequence get_elements get_all get_next
    cons_got get_hyper get_u32 after_high join_words of_word ntohl_bytes first_of
service_static-replies_example =
    service_static-replies (rfc_sequence 100) (rfc_sequence-SequenceLaws 100 (omega arith)) post 3
      (post_laws 3) (letter (put_sequence hundred)) hundred refl (ones_fit 100) (mail [])

abbrev plenty : Plenty memory (post_laws 3)
plenty = record { malloc_gives = λ n w. (w.next_block, refl, refl); free_apart = λ b w. refl }

service_freeing-replies_example :
    (e : Datagram) × (w' : Post) × (service_freeing
        (rfc_sequence 100)
        post
        3
        memory
        (letter (put_sequence hundred))
        (mail [])
      ≡ (ok true, w'))
    × (w'.gone ≡ [] ++ (e ∷ []))
    × (e.peer ≡ alice)
    × ((rfc_sequence 100).decode_response e.bytes ≡ some (hundred, map_squared hundred))
unfolding put_sequence put_all put_hyper htonl_bytes get_sequence get_elements get_all get_next
    cons_got get_hyper get_u32 after_high join_words of_word ntohl_bytes first_of
service_freeing-replies_example =
    service_freeing-replies (rfc_sequence 100) (rfc_sequence-SequenceLaws 100 (omega arith)) post 3
      (post_laws 3) (letter (put_sequence hundred)) hundred refl (ones_fit 100) memory plenty
      (mail [])
