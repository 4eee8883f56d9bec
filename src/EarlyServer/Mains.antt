-- ===== src/EarlyServer/Mains.antt =====
-- The `main` functions of server1_main.c and server2_main.c, and `serve_client` of the second.
use dp.Base.{
  ℕ, zero, suc, Bool, true, false, ◌||◌, Option, none, some, List, [], ◌∷◌, ltb, if◌then◌else◌,
}
use dp.Os.Calls.{Fd, Os}
use dp.Os.Processes.{Processes}
use dp.Os.Io.{Io, ok, undefined, pure, quit, stop, call, ◌>>=◌, ◌>>◌}
use dp.Sockwrap.Wrap
use dp.Sockwrap.Setup
use dp.Sockwrap.Setup.{Network, AddrInfo}
use dp.Connection.{af_unspec, sock_stream, ai_passive, first_info}
use dp.SumServer.Decimal.{Scan, no_number, unfit, number, scan_ushort}
use dp.FileServer.Defs.{max_buf, fatal_error}
use dp.FileClient.Session.{at_most}
use dp.EarlyServer.Requests.{request_loop}

-- N_LISTEN
abbrev pub n_listen : ℕ
n_listen = 15

-- `fill` are the bytes that a block of memory holds when it is allocated.
module _ (os : Os) (net : Network os.World) (fuel rounds requests : ℕ) (fill : ℕ → List ℕ) where
  -- The port is only tested; without a number in the argument it was never stored.
  unfoldable pub check_port : Io os.World (Unit {0}) → Scan → Io os.World (Unit {0})
  check_port next no_number = stop undefined
  check_port next unfit = stop undefined
  check_port next (number port rest) =
      if ltb port 1025 || ltb 65535 port then fatal_error os 2 else next

  -- One argument or two, behind the name of the program.
  unfoldable pub check_arguments :
      (List ℕ → Io os.World (Unit {0})) → List (List ℕ) → Io os.World (Unit {0})
  unfolding check_port
  check_arguments next [] = fatal_error os 1
  check_arguments next (port ∷ []) = check_port (next port) (scan_ushort port)
  check_arguments next (port ∷ other ∷ []) = check_port (next port) (scan_ushort port)
  check_arguments next (port ∷ other ∷ third ∷ more) = fatal_error os 1

  unfoldable pub passive_info : List ℕ → Io os.World AddrInfo
  unfolding first_info
  passive_info port =
      Setup.getaddrinfo net none (some port)
        (record { family = af_unspec; socktype = sock_stream; flags = ai_passive })
      >>= first_info net

  -- The size of the buffer: that of the socket, but at most MAXBUF.
  unfoldable pub buffer_size : Fd → Io os.World ℕ
  unfolding at_most
  buffer_size sockfd = Wrap.getsockopt_rcvbuf os sockfd >>= λ buflen. pure (at_most max_buf buflen)

  unfoldable pub bind_and_listen : Fd → AddrInfo → Io os.World (Unit {0})
  bind_and_listen sockfd res = do
    Setup.bind net sockfd res.ai_addr res.ai_addrlen
    Setup.listen net sockfd n_listen

  -- server1: `while (1)`, for a number of clients; the buffer goes from one client to the next.
  unfoldable pub one_by_one : Fd → ℕ → ℕ → List ℕ → Io os.World (Unit {0})
  unfolding request_loop
  one_by_one sockfd buflen zero buf w = (ok tt, w)
  one_by_one sockfd buflen (suc clients) buf w =
      (Wrap.accept os fuel sockfd >>= λ connfd.
      request_loop os fuel connfd buflen rounds 30 false requests buf
      >>= one_by_one sockfd buflen clients)
        w

  unfoldable pub with_buffer : Fd → AddrInfo → ℕ → ℕ → Bool → Io os.World (Unit {0})
  unfolding bind_and_listen one_by_one
  with_buffer sockfd res buflen clients false = fatal_error os 3
  with_buffer sockfd res buflen clients true =
      bind_and_listen sockfd res >> one_by_one sockfd buflen clients (fill buflen)

  unfoldable pub server1_main : List (List ℕ) → ℕ → Io os.World (Unit {0})
  unfolding check_arguments passive_info buffer_size with_buffer
  server1_main args clients =
      check_arguments
        (λ port. do
          res ← passive_info port
          sockfd ← Setup.socket net res.ai_family res.ai_socktype res.ai_protocol
          buflen ← buffer_size sockfd
          call (os.malloc buflen) >>= with_buffer sockfd res buflen clients)
        args

  -- server2: `serve_client`
  unfoldable pub with_block : Fd → ℕ → Bool → Io os.World (Unit {0})
  unfolding request_loop
  with_block connfd buflen false = fatal_error os 3
  with_block connfd buflen true =
      request_loop os fuel connfd buflen rounds 2 true requests (fill buflen) >>= λ buf. pure tt

  unfoldable pub serve_client : Fd → ℕ → Io os.World (Unit {0})
  unfolding with_block
  serve_client connfd buflen = call (os.malloc buflen) >>= with_block connfd buflen

  module _ (processes : Processes os.World) (sockfd : Fd) (buflen : ℕ) where
    -- What the process does that comes back from `fork`; a failure is taken for the parent.
    unfoldable pub parent : Io os.World (Unit {0}) → Fd → Io os.World (Unit {0})
    parent again connfd = do call processes.ignore_children; Wrap.close os connfd; again

    unfoldable pub after_fork : Io os.World (Unit {0}) → Fd → Option ℕ → Io os.World (Unit {0})
    unfolding parent serve_client
    after_fork again connfd none = parent again connfd
    after_fork again connfd (some zero) = do
      Wrap.close os sockfd
      serve_client connfd buflen
      quit 0
    after_fork again connfd (some (suc pid)) = parent again connfd

    unfoldable pub a_process_each : ℕ → Io os.World (Unit {0})
    unfolding after_fork
    a_process_each zero w = (ok tt, w)
    a_process_each (suc clients) w =
        (Wrap.accept os fuel sockfd >>= λ connfd.
        call processes.fork >>= after_fork (a_process_each clients) connfd)
          w

  unfoldable pub server2_main : Processes os.World → List (List ℕ) → ℕ → Io os.World (Unit {0})
  unfolding check_arguments passive_info buffer_size bind_and_listen a_process_each
  server2_main processes args clients =
      check_arguments
        (λ port. do
          res ← passive_info port
          sockfd ← Setup.socket net res.ai_family res.ai_socktype res.ai_protocol
          buflen ← buffer_size sockfd
          bind_and_listen sockfd res
          a_process_each processes sockfd buflen clients)
        args
