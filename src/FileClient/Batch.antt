-- ===== src/FileClient/Batch.antt =====
-- lab2/lab2.3/source/client1/client1_main.c: the client that is given the names of its files when it
-- is started.
use dp.Base.{
  ℕ, ◌≡◌, refl, Option, none, some, List, [], ◌∷◌, ◌++◌, length, ltb, ◌==◌, zero, suc, ◌+◌, ◌%◌, ap,
  ◌∙◌, fun_ext, if◌then◌else◌,
}
use dp.Base.Words.{u32_mod, ntohl_bytes}
use dp.Os.Calls.{Fd, FileName, Os}
use dp.Os.Io.{Io, ok, out_of_fuel, quit, undefined, pure, stop, call, ◌>>=◌, ◌>>◌}
use dp.Os.Net.{same_name}
use dp.Sockwrap.Wrap
use dp.Sockwrap.Exact.{writen, readn_or_exit}
use dp.FileClient.Commands.{get_prefix, line_end, quit_command}
use dp.FileClient.Receive.{
  receive_into, receive_named, receive_file, receive_loop, store_piece, to_read,
}
use dp.FileClient.Receive.Saved.{drop_last-append}
use dp.FileClient.Session.{first_byte, at_most}

abbrev pub get_len : ℕ
get_len = 300

abbrev pub max_argument_buf : ℕ
max_argument_buf = 2048

abbrev pub quit_name : List ℕ
quit_name = b'Q' ∷ b'U' ∷ b'I' ∷ b'T' ∷ []

module _ (os : Os) (fuel : ℕ) (sockfd : Fd) (buflen : ℕ) where
  module _ (fd : Fd) (h_file_dim : ℕ) where
    unfoldable pub write_piece : (ℕ → Io os.World (Unit {0})) → ℕ → List ℕ → Io os.World (Unit {0})
    write_piece again nbytes_tot piece = do
      Wrap.write os fd piece
      again ((nbytes_tot + length piece) % u32_mod)

    -- `while( nbytes_tot < h_file_dim )`
    unfoldable pub write_pieces : ℕ → ℕ → Io os.World (Unit {0})
    unfolding write_piece
    write_pieces zero nbytes_tot w = (out_of_fuel, w)
    write_pieces (suc rounds) nbytes_tot w =
        if ltb nbytes_tot h_file_dim
        then (Wrap.read os fuel sockfd (if ltb h_file_dim buflen then h_file_dim else buflen)
              >>= write_piece (write_pieces rounds) nbytes_tot)
            w
        else (ok tt, w)

  unfoldable pub receive_opened : ℕ → ℕ → Option Fd → Io os.World (Unit {0})
  unfolding write_pieces
  receive_opened rounds h_file_dim none = quit 2
  receive_opened rounds h_file_dim (some fd) = do
    write_pieces fd h_file_dim rounds 0
    Wrap.close os fd

  -- `receive_file` of this client: the name is used as it is.
  unfoldable pub receive_argument : ℕ → FileName → Io os.World (Unit {0})
  unfolding receive_opened
  receive_argument rounds filename = do
    readn_or_exit os fuel sockfd 4
    n_file_dim ← readn_or_exit os fuel sockfd 4
    readn_or_exit os fuel sockfd 4
    call (os.open_create filename) >>= receive_opened rounds (ntohl_bytes n_file_dim)

-- What `sprintf` stores in `buffer`, if it fits with its terminator.
unfoldable pub request_for : List ℕ → Option (List ℕ)
request_for name =
    if same_name name quit_name
    then some quit_command
    else if ltb (length (get_prefix ++ (name ++ line_end))) get_len
    then some (get_prefix ++ (name ++ line_end))
    else none

module _ (os : Os) (fuel : ℕ) (sockfd : Fd) (buflen rounds : ℕ) where
  -- The `switch` on the first byte of the answer. A byte that is not read leaves the request's in
  -- the buffer.
  unfoldable pub take_answer :
      Io os.World (Unit {0}) → FileName → List ℕ → List ℕ → Io os.World (Unit {0})
  unfolding first_byte
  take_answer again name request bs =
      let kind = first_byte (bs ++ request) in
      if kind == b'-'
      then (Wrap.close os sockfd >> again)
      else if kind == b'+'
      then (receive_argument os fuel sockfd buflen rounds name >> again)
      else again

  -- No descriptor is ready after ten seconds: the loop is left.
  unfoldable pub after_wait :
      Io os.World (Unit {0}) → FileName → List ℕ → List Fd → Io os.World (Unit {0})
  unfolding take_answer
  after_wait again name request [] = pure tt
  after_wait again name request (fd ∷ ready) =
      readn_or_exit os fuel sockfd 1 >>= take_answer again name request

  unfoldable pub ask : Io os.World (Unit {0}) → FileName → Option (List ℕ) → Io os.World (Unit {0})
  unfolding after_wait
  ask again name none = stop undefined
  ask again name (some request) = do
    writen os fuel sockfd request
    Wrap.select os fuel (sockfd ∷ []) (some 10) >>= after_wait again name request

  -- `while(n_files > 0)`
  unfoldable pub fetch_all : List FileName → Io os.World (Unit {0})
  unfolding ask request_for
  fetch_all [] = pure tt
  fetch_all (name ∷ names) = ask (fetch_all names) name (request_for name)

-- `main` from the connected socket on
unfoldable pub batch_main : (os : Os) → ℕ → ℕ → Fd → List FileName → Io os.World ℕ
unfolding fetch_all at_most
batch_main os fuel rounds sockfd names = do
  buflen ← Wrap.getsockopt_rcvbuf os sockfd
  fetch_all os fuel sockfd (at_most max_argument_buf buflen) rounds names
  Wrap.shutdown os sockfd 1
  pure 0

-- The two loops, each of its own program, store the same pieces.
receive_loop-write_pieces :
    (os : Os) (fuel sockfd buflen fd dim rounds tot : ℕ)
    → receive_loop os fuel sockfd buflen fd dim rounds tot
      ≡ write_pieces os fuel sockfd buflen fd dim rounds tot
unfolding receive_loop write_pieces store_piece write_piece to_read
receive_loop-write_pieces os fuel sockfd buflen fd dim zero tot = refl
receive_loop-write_pieces os fuel sockfd buflen fd dim (suc rounds) tot = fun_ext λ w.
    ap
      (λ (again : ℕ → Io os.World (Unit {0})).
        if ltb tot dim
        then (Wrap.read os fuel sockfd (to_read dim buflen)
              >>= store_piece os fuel sockfd buflen fd dim again tot)
            w
        else (ok tt, w))
      (fun_ext λ k. receive_loop-write_pieces os fuel sockfd buflen fd dim rounds k)

receive_into-receive_opened :
    (os : Os) (fuel sockfd buflen rounds dim : ℕ) (fd : Option Fd)
    → receive_into os fuel sockfd buflen rounds dim fd
      ≡ receive_opened os fuel sockfd buflen rounds dim fd
unfolding receive_into receive_opened
receive_into-receive_opened os fuel sockfd buflen rounds dim none = refl
receive_into-receive_opened os fuel sockfd buflen rounds dim (some fd) =
    ap (λ m. m >> Wrap.close os fd)
      (receive_loop-write_pieces os fuel sockfd buflen fd dim rounds 0)

-- The programs of lab3/es2 and lab2/lab2.3 have a `receive_file` each, with a loop of its own: on
-- every machine, for every fuel, number of rounds, buffer and answer, healthy or not, the two do the
-- same calls with the same outcome, if the one that is typed the name is given the other's name with
-- one more byte, whatever it is, which it takes for the end of the line.
pub receive_argument-receive_file :
    (os : Os) (fuel sockfd buflen rounds : ℕ) (name : FileName) (c : ℕ) (w : os.World)
    → receive_file os fuel sockfd buflen rounds (name ++ (c ∷ [])) w
      ≡ receive_argument os fuel sockfd buflen rounds name w
unfolding receive_file receive_argument receive_named
receive_argument-receive_file os fuel sockfd buflen rounds name c w =
    ap (λ last. receive_with last w) (drop_last-append name c)
    ∙ ap (λ into. receive_with_loop into w)
        (fun_ext
          λ dim. fun_ext λ fd. receive_into-receive_opened os fuel sockfd buflen rounds dim fd)
  where
    receive_with : Option FileName → Io os.World (Unit {0})
    receive_with last = do
      readn_or_exit os fuel sockfd 4
      n_file_dim ← readn_or_exit os fuel sockfd 4
      readn_or_exit os fuel sockfd 4
      receive_named os fuel sockfd buflen rounds (ntohl_bytes n_file_dim) last

    receive_with_loop : (ℕ → Option Fd → Io os.World (Unit {0})) → Io os.World (Unit {0})
    receive_with_loop into = do
      readn_or_exit os fuel sockfd 4
      n_file_dim ← readn_or_exit os fuel sockfd 4
      readn_or_exit os fuel sockfd 4
      call (os.open_create name) >>= into (ntohl_bytes n_file_dim)
