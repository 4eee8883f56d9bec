-- ===== src/UdpClient.antt =====
-- lab2/es1/client1_4.c: a client that sends one datagram and waits for answers, five times three
-- seconds.
pub mod Waits
mod Runs
use dp.Base.{
  ℕ, zero, suc, ◌+◌, Option, none, some, List, [], ◌∷◌, ◌++◌, drop, length, ltb, if◌then◌else◌,
}
use dp.Base.Scan.{string_in}
use dp.Os.Calls.{Fd, Os}
use dp.Os.Io.{Io, undefined, out_of_fuel, pure, stop, call, ◌>>=◌, ◌>>◌}
use dp.Sockwrap.Wrap
use dp.Sockwrap.Setup
use dp.Sockwrap.Setup.{Network}
use dp.Sockwrap.Datagrams
use dp.Sockwrap.Datagrams.{Parsed}
use dp.Square.Udp.{Address, Datagram, Udp}
use dp.Square.Simple.{af_inet, sock_dgram, ipproto_udp}
use dp.SumServer.Decimal.{Scan, no_number, unfit, number, scan_ushort}

-- BUFLEN
abbrev pub text_len : ℕ
text_len = 32

-- The number of tries, and the seconds of one.
abbrev pub tries : ℕ
tries = 5

abbrev pub try_seconds : ℕ
try_seconds = 3

module _ (os : Os) (udp : Udp os.World) (fuel : ℕ) (s : Fd) where
  -- The texts that are printed.
  abbrev pub Texts : Type 0
  Texts = List (List ℕ)

  -- `printf("%s")` of a buffer without a terminator reads past its end.
  unfoldable pub show_text : Io os.World Texts → Option (List ℕ) → Io os.World Texts
  show_text rest none = stop undefined
  show_text rest (some text) = rest >>= λ texts. pure (text ∷ texts)

  unfoldable pub show_datagram : Io os.World Texts → Datagram → Io os.World Texts
  unfolding show_text string_in
  show_datagram rest d = show_text rest (string_in text_len d.bytes)

  -- `Select` stores the descriptors that are ready in `readset`, and nothing is put into it again:
  -- `again` goes on with the tries so far and that set.
  unfoldable pub after_select : (ℕ → List Fd → Io os.World Texts) → ℕ → List Fd → Io os.World Texts
  unfolding show_datagram
  after_select again i [] = again (i + 1) []
  after_select again i (fd ∷ ready) =
      Datagrams.recvfrom os udp s text_len >>= show_datagram (again i (fd ∷ ready))

  -- `while (i < 5)`, with fuel: an answer does not count as a try.
  unfoldable pub wait_loop : ℕ → ℕ → List Fd → Io os.World Texts
  unfolding after_select
  wait_loop zero i readset w = (out_of_fuel, w)
  wait_loop (suc rounds) i readset w =
      (if ltb i tries
          then (Wrap.select os fuel readset (some try_seconds)
              >>= after_select (wait_loop rounds) i)
          else pure [])
        w

-- `fill` are the bytes that the buffer holds before anything was stored; `pton` is `inet_pton` and
-- `address` makes a socket address of a port and what it gives.
module _ (os : Os) (net : Network os.World) (udp : Udp os.World) (fuel rounds : ℕ) (fill : List ℕ)
    (pton : List ℕ → Parsed) (address : ℕ → Address → Address) where
  -- `strcpy`
  unfoldable pub copy_text : List ℕ → Io os.World (List ℕ)
  copy_text text =
      if ltb (length text) text_len
      then pure ((text ++ (0 ∷ [])) ++ drop (length text + 1) fill)
      else stop undefined

  unfoldable pub send_and_wait : List ℕ → ℕ → List ℕ → Io os.World (List (List ℕ))
  unfolding wait_loop
  send_and_wait host port buf = do
    s ← Setup.socket net af_inet sock_dgram ipproto_udp
    addr ← Datagrams.inet_pton os (pton host)
    Datagrams.sendto os udp s (record { bytes = buf; peer = address port addr })
    texts ← wait_loop os udp fuel s rounds 0 (s ∷ [])
    call (os.close s)
    pure texts

  unfoldable pub with_port : List ℕ → List ℕ → Scan → Io os.World (List (List ℕ))
  unfolding copy_text send_and_wait
  with_port host text no_number = stop undefined
  with_port host text unfit = stop undefined
  with_port host text (number port rest) = copy_text text >>= send_and_wait host port

  -- The arguments behind the program's name; a missing one is a null pointer that is followed.
  unfoldable pub udp_main : List (List ℕ) → Io os.World (List (List ℕ))
  unfolding with_port
  udp_main (host ∷ port ∷ text ∷ more) = with_port host text (scan_ushort port)
  udp_main _ = stop undefined
