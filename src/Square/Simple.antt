-- ===== src/Square/Simple.antt =====
-- 1-SquareSimple/SquareServer.c: a datagram with one hyper is answered by it and its square.
pub mod Replies
use dp.Base.{ℕ, zero, suc, Bool, true, false, Option, none, some, List, length, ◌==◌, if◌then◌else◌}
use dp.Base.Int.{ℤ, square}
use dp.Os.Calls.{Fd}
use dp.Os.Io.{Io, ok, undefined, pure, stop, call, ◌>>=◌, ◌>>◌}
use dp.Errlib.{err_sys}
use dp.Sockwrap.Setup.{Network}
use dp.Square.Xdr.{HyperCodec}
use dp.Square.Udp.{Address, Datagram, Udp}

-- BUFLEN of the servers
abbrev pub buf_len : ℕ
buf_len = 65536

abbrev pub af_inet : ℕ
af_inet = 2

abbrev pub sock_dgram : ℕ
sock_dgram = 2

abbrev pub ipproto_udp : ℕ
ipproto_udp = 17

-- `sizeof(struct sockaddr_in)`
abbrev pub sockaddr_in_size : ℕ
sockaddr_in_size = 16

module _ {W : Type 0} (udp : Udp W) where
  -- The test of the result of `sendto`: `true` is 0, `false` is -1.
  unfoldable pub check_sent : ℕ → Option ℕ → Io W Bool
  check_sent len none = pure false
  check_sent len (some k) = pure (k == len)

  -- The end of `service`: the encoded response, if it could be encoded, goes to the sender.
  unfoldable pub send_reply : Fd → Address → Option (List ℕ) → Io W Bool
  unfolding check_sent
  send_reply s from none = pure false
  send_reply s from (some bs) =
      call (udp.sendto s (record { bytes = bs; peer = from })) >>= check_sent (length bs)

  -- `for (;;)`, for a number of datagrams; the result of the service is only printed.
  unfoldable pub next_datagram :
      (Datagram → Io W Bool) → Io W (Unit {0}) → Option Datagram → Io W (Unit {0})
  next_datagram serve again none = again
  next_datagram serve again (some d) = serve d >> again

  unfoldable pub serve_datagrams : (Datagram → Io W Bool) → Fd → ℕ → ℕ → Io W (Unit {0})
  unfolding next_datagram
  serve_datagrams serve s room zero w = (ok tt, w)
  serve_datagrams serve s room (suc turns) w =
      (call (udp.recvfrom s room) >>= next_datagram serve (serve_datagrams serve s room turns)) w

module _ {W : Type 0} (codec : HyperCodec) (udp : Udp W) (s : Fd) where
  unfoldable pub reply_square : Address → ℤ → Option ℤ → Io W Bool
  unfolding send_reply
  reply_square from req none = stop undefined
  reply_square from req (some squared) =
      send_reply udp s from (codec.encode_pair buf_len req squared)

  unfoldable pub answer_request : Address → Option ℤ → Io W Bool
  unfolding reply_square square
  answer_request from none = pure false
  answer_request from (some req) = reply_square from req (square req)

  -- `service`
  unfoldable pub service : Datagram → Io W Bool
  unfolding answer_request
  service d = answer_request d.peer (codec.decode_hyper d.bytes)

  -- The loop of `main`, with BUFLEN-1 bytes of room
  unfoldable pub serve : ℕ → Io W (Unit {0})
  unfolding service serve_datagrams
  serve turns = serve_datagrams udp service s 65535 turns

module _ {W : Type 0} (net : Network W) where
  unfoldable pub exit_unless_bound : Fd → Bool → Io W Fd
  exit_unless_bound s true = pure s
  exit_unless_bound s false = err_sys

  unfoldable pub bind_socket : (Fd → W → Bool × W) → Option Fd → Io W Fd
  unfolding exit_unless_bound
  bind_socket assign none = err_sys
  bind_socket assign (some s) = call (assign s) >>= exit_unless_bound s

  -- `udp_server_init`, given the bytes of the address with the port
  unfoldable pub udp_server_init : Address → Io W Fd
  unfolding bind_socket
  udp_server_init saddr =
      call (net.socket af_inet sock_dgram ipproto_udp)
      >>= bind_socket (λ s. net.bind s saddr sockaddr_in_size)

  -- `udp_client_init`
  unfoldable pub udp_client_init : Address → Io W Fd
  unfolding bind_socket
  udp_client_init saddr =
      call (net.socket af_inet sock_dgram ipproto_udp)
      >>= bind_socket (λ s. net.connect s saddr sockaddr_in_size)
