-- ===== src/FileClient/Commands/Laws.antt =====
-- What the client sends for a typed command, and what the server makes of it.
use dp.Base.{
  ℕ, ◌+◌, ◌≤◌, ◌<◌, ◌≡◌, refl, ap, ◌∙◌, arith, true, List, [], ◌∷◌, ◌++◌, length, length-append,
  lt→ltb, some,
}
use dp.Base.Scan.{
  IsText, IsText-append, IsWord, is_space, two_words, scan_two_words-pair, before_nul-append,
  string_in, string_in_text,
}
use dp.Os.Calls.{Fd, FileName, Os}
use dp.Os.Io.{ok}
use dp.Os.Net.{emit}
use dp.Os.Net.Laws.{emit-emit}
use dp.Os.Reliable.{Reliable}
use dp.Sockwrap.Exact.Writing.{writen-Gave}
use dp.FileServer.Defs.{filename_len}
use dp.FileServer.Service.Text.{parse_request-get_then}
use dp.FileServer.Service.{get, parse_request}
use dp.FileClient.Commands.{get_prefix, line_end, send_name, send_string, send_get, buf_len}

-- The bytes of a request for a file.
abbrev pub get_line : List ℕ → List ℕ
get_line filename = get_prefix ++ (filename ++ line_end)

newline_space : is_space 10 ≡ true
unfolding is_space
newline_space = refl

-- The server reads the name back, if it is a word that fits its array.
pub parse_request-get_line :
    (c : ℕ) (cs : List ℕ)
    → IsWord (c ∷ cs)
    → length (c ∷ cs) < filename_len
    → parse_request (get_line (c ∷ cs)) ≡ get (c ∷ cs)
parse_request-get_line c cs word fits = parse_request-get_then c cs [] word fits

pub parse_request-name :
    (name : FileName)
    → IsWord name
    → 0 < length name
    → length name < filename_len
    → parse_request (get_line name) ≡ get name
parse_request-name [] word some_name short = absurd (omega arith)
parse_request-name (c ∷ cs) word some_name short = parse_request-get_line c cs word short

get_prefix-IsText : IsText get_prefix
get_prefix-IsText = (omega arith, (omega arith, (omega arith, (omega arith, tt))))

line_end-IsText : IsText line_end
line_end-IsText = (omega arith, (omega arith, tt))

pub get_line-IsText : (name : FileName) → IsText name → IsText (get_line name)
get_line-IsText name text =
    IsText-append get_prefix (name ++ line_end) get_prefix-IsText
      (IsText-append name line_end text line_end-IsText)

pub length-get_line : (name : FileName) → length (get_line name) ≡ 6 + length name
length-get_line name = omega (arith, length-append name line_end)

module _ (os : Os) (r : Reliable os) (fuel : ℕ) (sockfd : Fd) where
  -- The three calls of `writen` put the request together.
  send_name-Gave :
      (x y : ℕ) (command filename : List ℕ) (w : os.World)
      → length (y ∷ filename) < buf_len
      → length (y ∷ filename) + 4 + r.patience w < fuel
      → (w' : os.World) × (send_name os fuel sockfd (two_words (x ∷ command) (y ∷ filename)) w
          ≡ (ok tt, w'))
        × (r.view w' ≡ emit sockfd (get_line (y ∷ filename)) (r.view w))
        × (r.patience w' ≤ r.patience w)
  unfolding send_name
  send_name-Gave x y command filename w fits h =
      let (w1, run1, net1, calm1) = writen-Gave os r fuel sockfd get_prefix w (omega arith) in
      let (w2, run2, net2, calm2) = writen-Gave os r fuel sockfd (y ∷ filename) w1 (omega arith) in
      let (w3, run3, net3, calm3) = writen-Gave os r fuel sockfd line_end w2 (omega arith) in
      (
        w3,
        rw (lt→ltb (length (y ∷ filename)) buf_len fits) (rw run1 (rw run2 (rw run3 refl))),
        net3
            ∙ ap (emit sockfd line_end) (
                net2
                ∙ ap (emit sockfd (y ∷ filename)) net1
                ∙ emit-emit sockfd get_prefix (y ∷ filename) (r.view w))
            ∙ emit-emit sockfd (get_prefix ++ (y ∷ filename)) line_end (r.view w),
        omega arith,
      )

  line-IsText :
      (x y : ℕ) (command filename : List ℕ)
      → IsText (x ∷ command)
      → IsText (y ∷ filename)
      → IsText ((x ∷ command) ++ (32 ∷ ((y ∷ filename) ++ (10 ∷ []))))
  line-IsText x y command filename textx texty =
      IsText-append (x ∷ command) (32 ∷ ((y ∷ filename) ++ (10 ∷ []))) textx
        (omega arith, IsText-append (y ∷ filename) (10 ∷ []) texty (omega arith, tt))

  -- For a typed line of two words without NUL, the second one no longer than the client's array
  -- can hold, the client writes one request.
  pub send_get-Gave :
      (x y : ℕ) (command filename : List ℕ) (w : os.World)
      → IsWord (x ∷ command)
      → IsWord (y ∷ filename)
      → IsText (x ∷ command)
      → IsText (y ∷ filename)
      → length (y ∷ filename) < buf_len
      → length (y ∷ filename) + 4 + r.patience w < fuel
      → (w' : os.World) × (send_get os fuel sockfd
            ((x ∷ command) ++ (32 ∷ ((y ∷ filename) ++ (10 ∷ []))))
            w
          ≡ (ok tt, w'))
        × (r.view w' ≡ emit sockfd (get_line (y ∷ filename)) (r.view w))
        × (r.patience w' ≤ r.patience w)
  unfolding send_get send_string
  send_get-Gave x y command filename w wordx wordy textx texty fits h =
      let (w', run, net, calm) = send_name-Gave x y command filename w fits h in
      (
        w',
        rw
            (
              before_nul-append ((x ∷ command) ++ (32 ∷ ((y ∷ filename) ++ (10 ∷ []))))
                  (line-IsText x y command filename textx texty),
              scan_two_words-pair x y command filename [] 10 wordx wordy newline_space,
            )
            run,
        net,
        calm,
      )

  -- A line of two words without NUL, the second one of fewer bytes than the client's array: the
  -- client writes one request, whatever `write` takes at a time, and the server, which reads the
  -- bytes as a string in an array that holds them all with a NUL behind, reads the typed name back.
  pub send_get-parse_request :
      (x y : ℕ) (command filename : List ℕ) (w : os.World)
      → IsWord (x ∷ command)
      → IsWord (y ∷ filename)
      → IsText (x ∷ command)
      → IsText (y ∷ filename)
      → length (y ∷ filename) < buf_len
      → length (y ∷ filename) + 4 + r.patience w < fuel
      → (w' : os.World) × (request : List ℕ) × (send_get os fuel sockfd
            ((x ∷ command) ++ (32 ∷ ((y ∷ filename) ++ (10 ∷ []))))
            w
          ≡ (ok tt, w'))
        × (r.view w' ≡ emit sockfd request (r.view w))
        × ((size : ℕ) → length request < size → string_in size request ≡ some request)
        × (parse_request request ≡ get (y ∷ filename))
  send_get-parse_request x y command filename w wordx wordy textx texty fits h =
      let (w', run, net, calm) =
        send_get-Gave x y command filename w wordx wordy textx texty fits h in
      (
        w',
        get_line (y ∷ filename),
        run,
        net,
        λ size room.
            string_in_text size (get_line (y ∷ filename)) room
              (get_line-IsText (y ∷ filename) texty),
        parse_request-get_line y filename wordy (omega arith),
      )
