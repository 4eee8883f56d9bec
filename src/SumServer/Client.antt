-- ===== src/SumServer/Client.antt =====
-- lab2/es4/client4.c: a client of `prot_x`, which sends two typed integers and shows the answer.
use dp.Base.{
  ℕ, ◌≡◌, refl, ap, ◌∙◌, subst, Bool, true, false, Option, none, some, List, [], ◌∷◌, ◌++◌,
}
use dp.Base.Int.{ℤ, pos, int_sum}
use dp.Os.Calls.{Fd}
use dp.Os.Io.{Io, ok, undefined, pure, quit, stop, call, ◌>>=◌, ◌>>◌}
use dp.Errlib.{err_quit}
use dp.Sockwrap.Setup.{Network}
use dp.SumServer.Decimal.{Scan, no_number, unfit, number, scan_ushort}
use dp.SumServer.Xdr.{Stream, IntStreams, prot_x}
use dp.SumServer.Xdr.Sums.{Working, SumOutcome, prot_x-SumOutcome}

-- IPPROTO_TCP
abbrev pub ipproto_tcp : ℕ
ipproto_tcp = 6

-- What `fscanf` stored of two numbers; a number that it did not store is still 0.
unfoldable pub value_or_zero : Option ℤ → ℤ
value_or_zero none = pos 0
value_or_zero (some v) = v

module _ {W : Type 0} (io : IntStreams W) where
  -- What is shown after `xdr_int`: a failure leaves the first operand in `val1`.
  unfoldable pub shown_value : ℤ → Option ℤ → ℤ
  shown_value val1 none = val1
  shown_value val1 (some v) = v

  unfoldable pub ask_sum : Stream → Stream → ℤ → ℤ → Io W ℤ
  unfolding shown_value
  ask_sum output input val1 val2 =
      call (io.write_int output val1)
      >> call (io.write_int output val2)
      >> call (io.flush output)
      >> call (io.read_int input)
      >>= λ v. pure (shown_value val1 v)

  -- The streams are not tested.
  unfoldable pub with_both_streams : ℤ → ℤ → Option Stream → Option Stream → Io W ℤ
  unfolding ask_sum
  with_both_streams val1 val2 none input = stop undefined
  with_both_streams val1 val2 (some output) none = stop undefined
  with_both_streams val1 val2 (some output) (some input) = ask_sum output input val1 val2

  unfoldable pub over_socket : Fd → ℤ → ℤ → Io W ℤ
  unfolding with_both_streams
  over_socket s val1 val2 = call (io.fdopen_write s) >>= λ output.
      call (io.fdopen_read s) >>= λ input. with_both_streams val1 val2 output input

  -- `scanf` is `fscanf(stdin, "%d %d")`, `inet_aton` the function of that name; `any_address` makes a
  -- socket address of a port.
  module _ (net : Network W) (scanf : W → (Option ℤ × Option ℤ) × W)
      (inet_aton : List ℕ → Option (List ℕ)) (any_address : ℕ → List ℕ) where
    unfoldable pub after_connect : Fd → Bool → Io W ℤ
    unfolding over_socket value_or_zero
    after_connect s false = quit 1
    after_connect s true =
        call scanf >>= λ typed. over_socket s (value_or_zero typed.0) (value_or_zero typed.1)

    unfoldable pub after_socket : ℕ → Option Fd → Io W ℤ
    unfolding after_connect
    after_socket port none = quit 1
    after_socket port (some s) = call (net.connect s (any_address port) 16) >>= after_connect s

    -- A port that was not stored is read all the same.
    unfoldable pub with_scanned : Scan → Io W ℤ
    unfolding after_socket
    with_scanned no_number = stop undefined
    with_scanned unfit = stop undefined
    with_scanned (number port rest) = call (net.socket 2 1 ipproto_tcp) >>= after_socket port

    -- The address is only tested; the socket is connected to this host.
    unfoldable pub with_address : List ℕ → Option (List ℕ) → Io W ℤ
    unfolding with_scanned
    with_address port none = err_quit
    with_address port (some address) = with_scanned (scan_ushort port)

    -- The arguments behind the program's name: a missing one is a null pointer that is followed.
    unfoldable pub sum_client_main : List (List ℕ) → Io W ℤ
    unfolding with_address
    sum_client_main [] = stop undefined
    sum_client_main (host ∷ []) = stop undefined
    sum_client_main (host ∷ port ∷ more) = with_address port (inet_aton host)

-- Both numbers go out when the stream is flushed, and take nothing off the stream that comes in.
pub record Sending {W : Type 0} (io : IntStreams W) (s : Fd) (laws : Working io s) : Type 0 where
  pub two_sent :
      (f : Stream) (a b : ℤ) (w : W)
      → (laws.sent (io.flush f (io.write_int f b (io.write_int f a w).1).1).1
          ≡ laws.sent w ++ (a ∷ b ∷ []))
        × (laws.pending (io.flush f (io.write_int f b (io.write_int f a w).1).1).1 ≡ laws.pending w)

module _ {V W : Type 0} (server : IntStreams V) (connfd : Fd) (serving : Working server connfd)
    (client : IntStreams W) (s : Fd) (working : Working client s)
    (sending : Sending client s working) where
  -- The client and `prot_x`, each on a connection that works, and a sum that an `int` holds: the client
  -- sends its two numbers; the server, given these, sends one number back; and the client, given
  -- that one, shows it. It is the sum.
  pub over_socket-prot_x :
      (a b sum : ℤ) (w : W) (v : V)
      → int_sum a b ≡ some sum
      → working.pending w ≡ sum ∷ []
      → serving.pending v ≡ a ∷ b ∷ []
      → (w' : W) × (v' : V) × (over_socket client s a b w ≡ (ok sum, w'))
        × (working.sent w' ≡ working.sent w ++ (a ∷ b ∷ []))
        × (prot_x server connfd v ≡ (ok 0, v'))
        × (serving.sent v' ≡ serving.sent v ++ (sum ∷ []))
  unfolding over_socket with_both_streams ask_sum shown_value
  over_socket-prot_x a b sum w v fits answer request =
      let (g, got, hg, pend1, sent1, open1) = working.fdopen_write_lem w in
      let w1 = (client.fdopen_write s w).1 in
      let (f, got', hf, pend2, sent2, open2) = working.fdopen_read_lem w1 in
      let w2 = (client.fdopen_read s w1).1 in
      let (gone, kept) = sending.two_sent g a b w2 in
      let w3 = (client.flush g (client.write_int g b (client.write_int g a w2).1).1).1 in
      let (read, left, sent3, open3) =
        working.read_int_some f w3 sum [] (kept ∙ pend2 ∙ pend1 ∙ answer) in
      let (v', served, replied, same) =
        subst (λ o. SumOutcome server connfd serving v o (prot_x server connfd v)) fits
          (prot_x-SumOutcome server connfd serving (a ∷ b ∷ []) v request) in
      (
        (client.read_int f w3).1,
        v',
        rw (got, got', read) refl,
        sent3 ∙ gone ∙ ap (λ t. t ++ (a ∷ b ∷ [])) (sent2 ∙ sent1),
        served,
        replied,
      )
