-- ===== src/SumServer/Main.antt =====
-- `main` of server_test.c: one client after another, with the protocol that was asked for.
use dp.Base.{
  ℕ, zero, suc, ◌%◌, ◌^◌, ◌≡◌, refl, Option, none, some, List, [], ◌∷◌, ◌==◌, if◌then◌else◌,
  Bool-cases, inl, inr,
}
use dp.Base.Int.{ℤ, to_uint}
use dp.Os.Calls.{Fd, Os}
use dp.Os.Io.{Io, Result, ok, exit, undefined, out_of_fuel, pure, call, ◌>>=◌, ◌>>◌}
use dp.Errlib.{err_quit}
use dp.Sockwrap.Wrap
use dp.Sockwrap.Wrap.{passing, retry_accept}
use dp.Sockwrap.Setup
use dp.Sockwrap.Setup.{Network}
use dp.SumServer.{prot_a}
use dp.SumServer.Xdr.{IntStreams, prot_x}

-- LISTENQ
abbrev pub listenq : ℕ
listenq = 15

pub data Protocol : Type 0 where
  lines xdr : Protocol

-- The option `-a` or `-x`, of exactly two characters.
unfoldable pub protocol_of : List ℕ → Option Protocol
protocol_of (dash ∷ letter ∷ []) =
    if dash == b'-'
    then (if letter == b'a' then some lines else if letter == b'x' then some xdr else none)
    else none
protocol_of _ = none

module _ (os : Os) (streams : IntStreams os.World) (fuel turns : ℕ) (listenfd : Fd)
    (protocol : Protocol) where
  -- `prot_x` closes the connection itself.
  unfoldable pub converse_by : Protocol → Fd → Io os.World ℕ
  unfolding prot_a prot_x
  converse_by lines connfd = do err ← prot_a os fuel connfd turns; Wrap.close os connfd; pure err
  converse_by xdr connfd = prot_x streams connfd

  -- The loop around `accept`: `again` tries once more.
  unfoldable pub accepted : Io os.World ℕ → Io os.World ℕ → Option Fd → Io os.World ℕ
  unfolding passing converse_by
  accepted again next none w = if passing os (os.errno w) then again w else pure 1 w
  accepted again next (some connfd) w = (converse_by protocol connfd >> next) w

  unfoldable pub accept_loop : ℕ → Io os.World ℕ → Io os.World ℕ
  unfolding accepted
  accept_loop zero next w = (out_of_fuel, w)
  accept_loop (suc tries) next w =
      (call (os.accept listenfd) >>= accepted (accept_loop tries next) next) w

  -- `while (1)`, for a number of clients
  unfoldable pub serve_clients : ℕ → Io os.World ℕ
  unfolding accept_loop
  serve_clients zero w = (out_of_fuel, w)
  serve_clients (suc clients) w = accept_loop fuel (serve_clients clients) w

module _ (os : Os) (streams : IntStreams os.World) (fuel turns : ℕ) (listenfd : Fd)
    (protocol : Protocol) (next : Io os.World ℕ) where
  -- What the loop makes of a run of the wrapper `Accept`.
  abbrev pub ByAccept : Result Fd × os.World → Result ℕ × os.World → Type 0
  ByAccept (ok connfd, w') run =
      run ≡ (converse_by os streams fuel turns listenfd protocol protocol connfd >> next) w'
  ByAccept (exit status, w') run = run ≡ (ok 1, w')
  ByAccept (undefined, w') run = run ≡ (undefined, w')
  ByAccept (out_of_fuel, w') run = run ≡ (out_of_fuel, w')

  accepted-ByAccept :
      (tries : ℕ) (o : Option Fd) (w : os.World)
      → ((w : os.World)
          → ByAccept
              (Wrap.accept os tries listenfd w)
              (accept_loop os streams fuel turns listenfd protocol tries next w))
      → ByAccept (retry_accept os (Wrap.accept os tries listenfd) o w) (
          accepted os streams fuel turns listenfd protocol
            (accept_loop os streams fuel turns listenfd protocol tries next)
            next
            o
            w)
  unfolding retry_accept accepted
  accepted-ByAccept tries none w ih = elim (Bool-cases (passing os (os.errno w))) [
    | inl again ↦ rw again (ih w)
    | inr failed ↦ rw failed refl
  ]
  accepted-ByAccept tries (some connfd) w ih = refl

  -- The loop around `accept` goes on and stops exactly where the wrapper `Accept` does, with the
  -- same connection, but where `Accept` ends the process `main` returns 1.
  pub accept_loop-ByAccept :
      (tries : ℕ) (w : os.World)
      → ByAccept
          (Wrap.accept os tries listenfd w)
          (accept_loop os streams fuel turns listenfd protocol tries next w)
  unfolding accept_loop Wrap.accept
  accept_loop-ByAccept zero w = refl
  accept_loop-ByAccept (suc tries) w =
      accepted-ByAccept tries (os.accept listenfd w).0 (os.accept listenfd w).1
        (accept_loop-ByAccept tries)

-- `any_address` is the socket address of a port, `atoi` the function of <stdlib.h>.
module _ (os : Os) (net : Network os.World) (streams : IntStreams os.World)
    (any_address : ℕ → List ℕ) (atoi : List ℕ → ℤ) (fuel turns clients : ℕ) where
  unfoldable pub with_protocol : List ℕ → Option Protocol → Io os.World ℕ
  unfolding serve_clients
  with_protocol port none = err_quit
  with_protocol port (some protocol) = do
    listenfd ← Setup.socket net 2 1 0
    Setup.bind net listenfd (any_address (to_uint (atoi port) % 2 ^ 16)) 16
    Setup.listen net listenfd listenq
    serve_clients os streams fuel turns listenfd protocol clients

  -- The arguments behind the name of the program: exactly two.
  unfoldable pub sum_main : List (List ℕ) → Io os.World ℕ
  unfolding with_protocol protocol_of
  sum_main [] = err_quit
  sum_main (option ∷ []) = err_quit
  sum_main (option ∷ port ∷ []) = with_protocol port (protocol_of option)
  sum_main (option ∷ port ∷ third ∷ more) = err_quit
