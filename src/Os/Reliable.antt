-- ===== src/Os/Reliable.antt =====
-- What the manual pages promise of the calls on a healthy machine: the only failures are
-- interruptions by signals, of which a finite number is still to come; a read of a stream delivers
-- the next bytes, at least one unless the stream has ended; a write takes at least one byte.
use dp.Base.{ℕ, ◌≤◌, ◌<◌, ◌≡◌, ◌≢◌, true, false, none, some, List, [], ◌∷◌, Option, length, take}
use dp.Os.Calls.{msg_nosignal, Fd, FileName, Os}
use dp.Os.Errno.{eintr}
use dp.Os.Net.{Net, File, consume, emit, shut, opened, created, held}

-- An interrupted call: nothing has happened, and one signal fewer is to come.
abbrev pub Interrupted : ℕ → Net → Net → ℕ → ℕ → Type 0
Interrupted errno s s' patience patience' = (errno ≡ eintr) × (s' ≡ s) × (patience' < patience)

pub record Reliable (os : Os) : Type 0 where
  pub view : os.World → Net
  pub patience : os.World → ℕ
  pub read_interrupted :
      (fd : Fd) (n : ℕ) (w : os.World)
      → (os.read fd n w).0 ≡ none
      → Interrupted
          (os.errno (os.read fd n w).1)
          (view w)
          (view (os.read fd n w).1)
          (patience w)
          (patience (os.read fd n w).1)
  pub read_delivers :
      (fd : Fd) (n : ℕ) (w : os.World) (bs : List ℕ)
      → (os.read fd n w).0 ≡ some bs
      → (bs ≡ take (length bs) ((view w).incoming fd))
        × (length bs ≤ n)
        × (view (os.read fd n w).1 ≡ consume fd (length bs) (view w))
        × (patience (os.read fd n w).1 ≤ patience w)
  pub read_end :
      (fd : Fd) (n : ℕ) (w : os.World)
      → (os.read fd n w).0 ≡ some []
      → n ≢ 0
      → (view w).incoming fd ≡ []
  pub write_interrupted :
      (fd : Fd) (bs : List ℕ) (w : os.World)
      → (os.write fd bs w).0 ≡ none
      → Interrupted
          (os.errno (os.write fd bs w).1)
          (view w)
          (view (os.write fd bs w).1)
          (patience w)
          (patience (os.write fd bs w).1)
  pub write_accepts :
      (fd : Fd) (bs : List ℕ) (w : os.World) (k : ℕ)
      → (os.write fd bs w).0 ≡ some k
      → (bs ≢ [] → 0 < k)
        × (k ≤ length bs)
        × (view (os.write fd bs w).1 ≡ emit fd (take k bs) (view w))
        × (patience (os.write fd bs w).1 ≤ patience w)
  -- the same of `recv` without flags and of `send` with MSG_NOSIGNAL
  pub recv_interrupted :
      (fd : Fd) (n : ℕ) (w : os.World)
      → (os.recv fd n 0 w).0 ≡ none
      → Interrupted
          (os.errno (os.recv fd n 0 w).1)
          (view w)
          (view (os.recv fd n 0 w).1)
          (patience w)
          (patience (os.recv fd n 0 w).1)
  pub recv_delivers :
      (fd : Fd) (n : ℕ) (w : os.World) (bs : List ℕ)
      → (os.recv fd n 0 w).0 ≡ some bs
      → (bs ≡ take (length bs) ((view w).incoming fd))
        × (length bs ≤ n)
        × (view (os.recv fd n 0 w).1 ≡ consume fd (length bs) (view w))
        × (patience (os.recv fd n 0 w).1 ≤ patience w)
  pub recv_end :
      (fd : Fd) (n : ℕ) (w : os.World)
      → (os.recv fd n 0 w).0 ≡ some []
      → n ≢ 0
      → (view w).incoming fd ≡ []
  pub send_interrupted :
      (fd : Fd) (bs : List ℕ) (w : os.World)
      → (os.send fd bs msg_nosignal w).0 ≡ none
      → Interrupted
          (os.errno (os.send fd bs msg_nosignal w).1)
          (view w)
          (view (os.send fd bs msg_nosignal w).1)
          (patience w)
          (patience (os.send fd bs msg_nosignal w).1)
  pub send_accepts :
      (fd : Fd) (bs : List ℕ) (w : os.World) (k : ℕ)
      → (os.send fd bs msg_nosignal w).0 ≡ some k
      → (bs ≢ [] → 0 < k)
        × (k ≤ length bs)
        × (view (os.send fd bs msg_nosignal w).1 ≡ emit fd (take k bs) (view w))
        × (patience (os.send fd bs msg_nosignal w).1 ≤ patience w)
  pub close_lem :
      (fd : Fd) (w : os.World)
      → ((os.close fd w).0 ≡ true)
        × (view (os.close fd w).1 ≡ shut fd (view w))
        × (patience (os.close fd w).1 ≤ patience w)
  -- no error is pending on any socket
  pub so_error_lem :
      (fd : Fd) (w : os.World)
      → ((os.so_error fd w).0 ≡ some 0)
        × (view (os.so_error fd w).1 ≡ view w)
        × (patience (os.so_error fd w).1 ≤ patience w)
  pub malloc_lem :
      (n : ℕ) (w : os.World)
      → ((os.malloc n w).0 ≡ true)
        × (view (os.malloc n w).1 ≡ view w)
        × (patience (os.malloc n w).1 ≤ patience w)
  -- writes to a regular file are neither short nor interrupted
  pub file_write_lem :
      (fd : Fd) (bs : List ℕ) (w : os.World)
      → (view w).is_file fd ≡ true
      → (os.write fd bs w).0 ≡ some (length bs)
  pub open_read_missing :
      (name : FileName) (w : os.World)
      → (view w).disk name ≡ none
      → (view w).written name ≡ none
      → ((os.open_read name w).0 ≡ none)
        × (view (os.open_read name w).1 ≡ view w)
        × (patience (os.open_read name w).1 ≤ patience w)
  pub open_read_found :
      (name : FileName) (w : os.World) (f : File)
      → (view w).disk name ≡ some f
      → (view w).written name ≡ none
      → (fd : Fd) × ((os.open_read name w).0 ≡ some fd)
        × ((view w).is_open fd ≡ false)
        × (view (os.open_read name w).1 ≡ opened fd f (view w))
        × (patience (os.open_read name w).1 ≤ patience w)
  pub open_create_lem :
      (name : FileName) (w : os.World)
      → (fd : Fd) × ((os.open_create name w).0 ≡ some fd)
        × ((view w).is_open fd ≡ false)
        × (view (os.open_create name w).1 ≡ created fd name (held name (view w)) (view w))
        × (patience (os.open_create name w).1 ≤ patience w)
  pub fstat_lem :
      (fd : Fd) (w : os.World)
      → ((os.fstat fd w).0
          ≡ some (record {
            st_size = length ((view w).file_of fd).content;
            st_mtime = ((view w).file_of fd).mtime;
          }))
        × (view (os.fstat fd w).1 ≡ view w)
        × (patience (os.fstat fd w).1 ≤ patience w)

module _ (os : Os) (r : Reliable os) where
  -- Data, or the end of the stream, is there by the time that a call waits for it.
  abbrev pub Prompt : Fd → Type 0
  Prompt fd =
      (limit : Option ℕ) (w : os.World)
      → ((os.select (fd ∷ []) limit w).0 ≡ some (fd ∷ []))
        × (r.view (os.select (fd ∷ []) limit w).1 ≡ r.view w)
        × (r.patience (os.select (fd ∷ []) limit w).1 ≤ r.patience w)

  -- What has come is delivered by one read, if it fits: the messages arrive in one piece.
  abbrev pub OnePiece : Fd → Type 0
  OnePiece fd =
      (n : ℕ) (w : os.World) (bs : List ℕ)
      → (os.read fd n w).0 ≡ some bs
      → length ((r.view w).incoming fd) ≤ n
      → length ((r.view w).incoming fd) ≤ length bs
