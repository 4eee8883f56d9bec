-- ===== src/Square/Simple/Replies.antt =====
-- The server of 1-SquareSimple against what it is for: every request is answered by its square.
use dp.Base.{
  ℕ, suc, ◌*◌, ◌<◌, ◌≡◌, refl, sym, ap, ◌∙◌, arith, Bool, true, false, Option, none, some, List, [],
  ◌∷◌, ◌++◌, length, take, lt→ltb, ==_self, append-nil, append_assoc, inl, inr, Option-cases, subst,
}
use dp.Base.Int.{ℤ, pos, magnitude, hyper_limit, square}
use dp.Os.Calls.{Fd}
use dp.Os.Io.{Io, Result, ok, and_then}
use dp.Square.Xdr.{HyperCodec, HyperLaws}
use dp.Square.Udp.{Datagram, Udp, UdpLaws}
use dp.Square.Simple.{
  buf_len, check_sent, send_reply, next_datagram, serve_datagrams, reply_square, answer_request,
  service, serve,
}

-- The square as a hyper, where it is one.
abbrev pub squared : ℤ → ℤ
squared v = pos (magnitude v * magnitude v)

-- The square fits, if a request was decoded.
abbrev pub SquareFits : Option ℤ → Type 0
SquareFits none = Unit
SquareFits (some v) = magnitude v * magnitude v < hyper_limit

-- The bytes of a datagram that reach the buffer.
abbrev pub received : Datagram → List ℕ
received d = take 65535 d.bytes

abbrev pub cut : Datagram → Datagram
cut d = record { bytes = received d; peer = d.peer }

module _ (codec : HyperCodec) where
  abbrev pub AllFit : List Datagram → Type 0
  AllFit [] = Unit
  AllFit (d ∷ ds) = SquareFits (codec.decode_hyper (received d)) × AllFit ds

  -- The replies to some datagrams, in order: one for each request, to its sender, with the request
  -- and its square; none for a datagram that is no request.
  pub data Replied : List Datagram → List Datagram → Type 0 where
    all_replied : Replied [] []
    replied :
        {d e : Datagram} {ds es : List Datagram} (v : ℤ)
        → codec.decode_hyper (received d) ≡ some v
        → e.peer ≡ d.peer
        → codec.decode_pair e.bytes ≡ some (v, squared v)
        → Replied ds es
        → Replied (d ∷ ds) (e ∷ es)
    skipped :
        {d : Datagram} {ds es : List Datagram}
        → codec.decode_hyper (received d) ≡ none
        → Replied ds es
        → Replied (d ∷ ds) es

pub square_fits : (v : ℤ) → magnitude v * magnitude v < hyper_limit → square v ≡ some (squared v)
unfolding square
square_fits v h = rw (lt→ltb (magnitude v * magnitude v) hyper_limit h) refl

module _ {W : Type 0} (codec : HyperCodec) (laws : HyperLaws codec) (udp : Udp W) (s : Fd)
    (net : UdpLaws udp s) where
  -- One request leaves the datagrams that wait, and sends one datagram or none.
  abbrev Answers : Datagram → Option ℤ → W → Io W Bool → Type 0
  Answers d none w m =
      (b : Bool) × (w' : W) × (m w ≡ (ok b, w'))
      × (net.waiting w' ≡ net.waiting w)
      × (net.gone w' ≡ net.gone w)
  Answers d (some v) w m =
      (e : Datagram) × (w' : W) × (m w ≡ (ok true, w'))
      × (net.waiting w' ≡ net.waiting w)
      × (net.gone w' ≡ net.gone w ++ (e ∷ []))
      × (e.peer ≡ d.peer)
      × (codec.decode_pair e.bytes ≡ some (v, squared v))

  answer_request-Answers :
      (d : Datagram) (o : Option ℤ) (w : W)
      → codec.decode_hyper (received d) ≡ o
      → SquareFits o
      → Answers d o w (answer_request codec udp s d.peer o)
  unfolding answer_request reply_square send_reply check_sent
  answer_request-Answers d none w e fits = (false, w, refl, refl, refl)
  answer_request-Answers d (some v) w e fits =
      let (bs, encoded, len, decoded) =
        laws.pair_sent buf_len v (squared v) (laws.hyper_range (received d) v e) fits
          (omega arith) in
      let reply : Datagram = record { bytes = bs; peer = d.peer } in
      let (whole, same, more) = net.sendto_whole reply w in
      (
        reply,
        (udp.sendto s reply w).1,
        rw (square_fits v fits, encoded, whole, ==_self (length bs)) refl,
        same,
        more,
        refl,
        decoded,
      )

  -- A turn of the loop whose service returns.
  serve_turn :
      (turns : ℕ) (d : Datagram) (b : Bool) (w w2 : W)
      → (udp.recvfrom s 65535 w).0 ≡ some d
      → service codec udp s d (udp.recvfrom s 65535 w).1 ≡ (ok b, w2)
      → serve codec udp s (suc turns) w ≡ serve codec udp s turns w2
  unfolding serve serve_datagrams next_datagram
  serve_turn turns d b w w2 got run =
      rw got (ap (λ (t : Result Bool × W). and_then t.0 (λ c. serve codec udp s turns) t.1) run)

  -- What the loop does with a list of datagrams.
  abbrev pub Serves : List Datagram → W → Io W (Unit {0}) → Type 0
  Serves ds w m =
      (es : List Datagram) × (w' : W) × (m w ≡ (ok tt, w'))
      × Replied codec ds es
      × (net.gone w' ≡ net.gone w ++ es)
      × (net.waiting w' ≡ [])

  -- If nothing is lost and no square overflows, the server answers the datagrams that wait: each
  -- request by one datagram to its sender, that decodes to the request and its square, in order, and
  -- what is no request by none.
  pub serve-Replied :
      (ds : List Datagram) (w : W)
      → net.waiting w ≡ ds
      → AllFit codec ds
      → Serves ds w (serve codec udp s (length ds))
  serve-Replied [] w e fits =
      ([], w, unfold serve serve_datagrams in refl, all_replied, sym (append-nil (net.gone w)), e)
  serve-Replied (d ∷ ds) w e (fit, fits) =
      let (got, rest, kept) = net.recvfrom_next 65535 w d ds e in
      let w1 = (udp.recvfrom s 65535 w).1 in
      elim (Option-cases (codec.decode_hyper (received d))) [
        | inl bad ↦
            let (b, w2, run, same, still) = answer_request-Answers d none w1 bad tt in
            let (es, w', run', all, more, done) = serve-Replied ds w2 (same ∙ rest) fits in
            (
              es,
              w',
              serve_turn (length ds) (cut d) b w w2 got (unfold service in rw bad run) ∙ run',
              skipped bad all,
              more ∙ ap (λ t. t ++ es) (still ∙ kept),
              done,
            )
        | inr (v, good) ↦
            let (reply, w2, run, same, one, peer, decoded) =
              answer_request-Answers d (some v) w1 good (subst SquareFits good fit) in
            let (es, w', run', all, more, done) = serve-Replied ds w2 (same ∙ rest) fits in
            (
              reply ∷ es,
              w',
              serve_turn (length ds) (cut d) true w w2 got (unfold service in rw good run) ∙ run',
              replied v good peer decoded all,
              more
                  ∙ ap (λ t. t ++ es) (one ∙ ap (λ t. t ++ (reply ∷ [])) kept)
                  ∙ append_assoc (net.gone w) (reply ∷ []) es,
              done,
            )
      ]
