-- ===== src/Sockwrap/Wrap.antt =====
-- The wrappers of sockwrap.c: one system call each, made again where the source says so, and the end
-- of the process where it fails. The wrapper of `read` stands here as `read`, and so on.
pub mod Laws
use dp.Base.{
  ℕ, zero, suc, Bool, true, false, ◌||◌, Option, none, some, List, length, ◌==◌, if◌then◌else◌,
}
use dp.Os.Calls.{Fd, Os}
use dp.Os.Errno.{eintr, eproto, econnaborted, emfile, enfile, enobufs, enomem}
use dp.Os.Io.{Io, out_of_fuel, pure, call, ◌>>=◌}
use dp.Errlib.{err_sys}

module _ (os : Os) where
  unfoldable pub retry_read : Io os.World (List ℕ) → Option (List ℕ) → Io os.World (List ℕ)
  retry_read again none w = if os.errno w == eintr then again w else err_sys w
  retry_read again (some bs) w = pure bs w

  -- `Read`
  unfoldable pub read : ℕ → Fd → ℕ → Io os.World (List ℕ)
  unfolding retry_read
  read zero fd n w = (out_of_fuel, w)
  read (suc fuel) fd n w = (call (os.read fd n) >>= retry_read (read fuel fd n)) w

  unfoldable pub check_count : ℕ → Option ℕ → Io os.World (Unit {0})
  check_count n none = err_sys
  check_count n (some k) = if k == n then pure tt else err_sys

  -- `Write`, which does not go on after a short write
  unfoldable pub write : Fd → List ℕ → Io os.World (Unit {0})
  unfolding check_count
  write fd bs = call (os.write fd bs) >>= check_count (length bs)

  -- `Send`
  unfoldable pub send : Fd → List ℕ → ℕ → Io os.World (Unit {0})
  unfolding check_count
  send fd bs flags = call (os.send fd bs flags) >>= check_count (length bs)

  unfoldable pub check_some : {A : Type 0} → Option A → Io os.World A
  check_some none = err_sys
  check_some (some a) = pure a

  -- `Recv`
  unfoldable pub recv : Fd → ℕ → ℕ → Io os.World (List ℕ)
  unfolding check_some
  recv fd n flags = call (os.recv fd n flags) >>= check_some

  unfoldable pub check_done : Bool → Io os.World (Unit {0})
  check_done true = pure tt
  check_done false = err_sys

  -- `Close`
  unfoldable pub close : Fd → Io os.World (Unit {0})
  unfolding check_done
  close fd = call (os.close fd) >>= check_done

  -- `Shutdown`
  unfoldable pub shutdown : Fd → ℕ → Io os.World (Unit {0})
  unfolding check_done
  shutdown fd how = call (os.shutdown fd how) >>= check_done

  -- The errors after which `Accept` tries again.
  unfoldable pub passing : ℕ → Bool
  passing e =
      e == eintr
      || (e == eproto
          || (e == econnaborted || (e == emfile || (e == enfile || (e == enobufs || e == enomem)))))

  unfoldable pub retry_accept : Io os.World Fd → Option Fd → Io os.World Fd
  unfolding passing
  retry_accept again none w = if passing (os.errno w) then again w else err_sys w
  retry_accept again (some fd) w = pure fd w

  -- `Accept`
  unfoldable pub accept : ℕ → Fd → Io os.World Fd
  unfolding retry_accept
  accept zero fd w = (out_of_fuel, w)
  accept (suc fuel) fd w = (call (os.accept fd) >>= retry_accept (accept fuel fd)) w

  unfoldable pub retry_select : Io os.World (List Fd) → Option (List Fd) → Io os.World (List Fd)
  retry_select again none w = if os.errno w == eintr then again w else err_sys w
  retry_select again (some ready) w = pure ready w

  -- `Select` on a set of descriptors for reading; no limit stands for a null pointer
  unfoldable pub select : ℕ → List Fd → Option ℕ → Io os.World (List Fd)
  unfolding retry_select
  select zero fds limit w = (out_of_fuel, w)
  select (suc fuel) fds limit w =
      (call (os.select fds limit) >>= retry_select (select fuel fds limit)) w

  -- `Getsockopt` with SO_ERROR, and with SO_RCVBUF
  unfoldable pub getsockopt_error : Fd → Io os.World ℕ
  unfolding check_some
  getsockopt_error fd = call (os.so_error fd) >>= check_some

  unfoldable pub getsockopt_rcvbuf : Fd → Io os.World ℕ
  unfolding check_some
  getsockopt_rcvbuf fd = call (os.so_rcvbuf fd) >>= check_some
