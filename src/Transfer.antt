-- ===== src/Transfer.antt =====
-- A file on its way from `send_file` of lab3/es3/server.c to `receive_file` of lab3/es2/client.c, each
-- on a machine of its own. The client has read the first byte of the answer.
mod Runs
use dp.Base.{
  ℕ, ◌+◌, ◌%◌, ◌≤◌, ◌<◌, ◌≡◌, ◌⊎◌, refl, sym, ap, ◌∙◌, arith, Bool, true, false, Option, none, some,
  List, [], ◌∷◌, ◌++◌, length, take, drop, take_all, length-take,
}
use dp.Base.Words.{u32_mod}
use dp.Os.Calls.{Fd, FileName, Stat, Os}
use dp.Os.Io.{ok, Result, out_of_fuel}
use dp.Os.Net.{Net, File, emit, consume, opened, stored, held}
use dp.Os.Net.Laws.{sent-emit, sent-consume, sent-opened}
use dp.Os.Reliable.{Reliable}
use dp.FileServer.SendFile.{int_limit, send_file}
use dp.FileServer.SendFile.Kept.{kept, kept-eq_iff, kept_less}
use dp.FileServer.SendFile.Sent.{header, stat_of, send_file-Sends}
use dp.FileClient.Receive.{receive_file}
use dp.FileClient.Receive.Saved.{answer_after_plus, receive_file-saves, receive_file-hangs}

sent_bytes :
    (connfd fd n : ℕ) (bs : List ℕ) (f : File) (s s' : Net)
    → s.sent connfd ≡ []
    → s' ≡ emit connfd bs (consume fd n (opened fd f s))
    → s'.sent connfd ≡ bs
sent_bytes connfd fd n bs f s s' e moved =
    ap (λ t. t.sent connfd) moved
    ∙ sent-emit connfd bs (consume fd n (opened fd f s))
    ∙ ap (λ t. t ++ bs) (sent-consume fd n connfd (opened fd f s) ∙ sent-opened fd connfd f s ∙ e)

after_plus : (st : Stat) (bs : List ℕ) → drop 1 (header st ++ bs) ≡ answer_after_plus st bs
unfolding header
after_plus st bs = refl

module _ (server : Os) (rs : Reliable server) where
  -- The file is on the server's disk and fits, the connection is new, and the fuel is enough.
  pub record Ready (fuel connfd buflen : ℕ) (name : FileName) (f : File) (w : server.World)
      : Type 0 where
    pub found : (rs.view w).disk name ≡ some f
    pub unwritten : (rs.view w).written name ≡ none
    pub nothing_sent : (rs.view w).sent connfd ≡ []
    pub large : 13 < buflen
    pub fits : 13 + length f.content < int_limit
    pub enough : buflen + rs.patience w < fuel

module _ (server : Os) (rs : Reliable server) (client : Os) (rc : Reliable client) where
  module _ (fuel connfd buflen : ℕ) (name : FileName) (f : File) (w : server.World)
      (ready : Ready server rs fuel connfd buflen name f w) where
    -- What the server does with the request.
    abbrev pub sending : Result ℕ × server.World
    sending = send_file server fuel connfd (length f.content + 1) name buflen w

    -- The server has sent all that it sends, and returned.
    served :
        (sending.0 ≡ ok 1)
        × (drop 1 ((rs.view sending.1).sent connfd)
            ≡ answer_after_plus (stat_of f) (take (kept (length f.content) buflen) f.content))
    served =
        let (fd, w', fresh, run, moved, calm) =
          send_file-Sends server rs fuel connfd (length f.content + 1) buflen name f w ready.found
            ready.unwritten ready.large ready.fits (omega arith) ready.enough in
        let bs = take (kept (length f.content) buflen) f.content in
        (
          ap (λ (t : Result ℕ × server.World). t.0) run,
          ap (λ (t : Result ℕ × server.World). drop 1 ((rs.view t.1).sent connfd)) run
              ∙ ap (drop 1) (
                  sent_bytes connfd fd (kept (length f.content) buflen) (header (stat_of f) ++ bs) f
                    (rs.view w) (rs.view w') ready.nothing_sent moved)
              ∙ after_plus (stat_of f) bs,
        )

    -- The client's stream holds what the server sent, but for the byte that it has read.
    module _ (fuel' sockfd buflen' rounds : ℕ) (name' : FileName) (c : ℕ) (v : client.World)
        (stream : (rc.view v).incoming sockfd ≡ drop 1 ((rs.view sending.1).sent connfd))
        (enough : 4 + rc.patience v < fuel') where
      abbrev pub receiving : Result (Unit {0}) × client.World
      receiving = receive_file client fuel' sockfd buflen' rounds (name' ++ (c ∷ [])) v

      -- On machines that keep the promises of `Reliable`, with fuel and rounds enough, a buffer of
      -- the server of more than 13 bytes and a file that an `int` can count with its header: if the
      -- last piece of the file is empty or longer than 13 bytes, the server reports success and the
      -- client returns; the file that it wrote holds the server's file, over the front of what stood
      -- under the name that it was typed.
      pub transfer_saves :
          (length f.content % buflen ≡ 0) ⊎ (13 < length f.content % buflen)
          → 0 < buflen'
          → length f.content < rounds
          → (fd : Fd) × (sending.0 ≡ ok 1)
            × (receiving.0 ≡ ok tt)
            × (stored fd (rc.view receiving.1)
                ≡ f.content ++ drop (length f.content) (held name' (rc.view v)))
      unfolding stat_of
      transfer_saves good large h =
          let all : kept (length f.content) buflen ≡ length f.content =
            (kept-eq_iff (length f.content) buflen ready.large).1 good in
          let bs : take (kept (length f.content) buflen) f.content ≡ f.content =
            ap (λ n. take n f.content) all ∙ take_all (length f.content) f.content (omega arith) in
          let answer = stream ∙ served.1 ∙ ap (answer_after_plus (stat_of f)) bs in
          let (fd, v', unused, run, result, found, closed, read, calm) =
            receive_file-saves client rc fuel' sockfd buflen' (stat_of f) f.content v answer enough
              rounds name' c (omega (arith, ready.fits)) refl large h in
          (
            fd,
            served.0,
            ap (λ (t : Result (Unit {0}) × client.World). t.0) run,
            ap (λ (t : Result (Unit {0}) × client.World). stored fd (rc.view t.1)) run ∙ result,
          )

      -- Under the same conditions, if the last piece of the file has 1 to 13 bytes, the server
      -- reports success all the same, and the client does not return: it uses up its rounds, however
      -- many they are.
      pub transfer_hangs :
          0 < length f.content % buflen
          → length f.content % buflen ≤ 13
          → (sending.0 ≡ ok 1) × (receiving.0 ≡ out_of_fuel)
      unfolding stat_of
      transfer_hangs some_left few = (
        served.0,
        receive_file-hangs client rc fuel' sockfd buflen' (stat_of f)
            (take (kept (length f.content) buflen) f.content) v (stream ∙ served.1) enough rounds
            name' c (omega (arith, ready.fits))
            (omega (
              arith,
              kept_less (length f.content) buflen some_left few,
              length-take (kept (length f.content) buflen) f.content,
            )),
      )
