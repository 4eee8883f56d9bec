-- ===== src/FileClient/Receive.antt =====
-- `receive_file` of lab3/es2/client.c: the answer to a request, after its first byte.
pub mod Keeps
pub mod Loop
pub mod Saved
use dp.Base.{ℕ, zero, suc, ◌+◌, ◌%◌, Option, none, some, List, [], ◌∷◌, length, ltb, if◌then◌else◌}
use dp.Base.Words.{u32_mod, ntohl_bytes}
use dp.Os.Calls.{Fd, FileName, Os}
use dp.Os.Io.{Io, ok, undefined, out_of_fuel, pure, quit, stop, call, ◌>>=◌, ◌>>◌}
use dp.Sockwrap.Wrap
use dp.Sockwrap.Exact.{readn_or_exit}

-- `filename[strlen(filename)-1] = '\0'`, which writes before the array if the name is empty.
unfoldable pub drop_last : List ℕ → Option (List ℕ)
drop_last [] = none
drop_last (c ∷ []) = some []
drop_last (c ∷ d ∷ cs) = elim (drop_last (d ∷ cs)) [ none ↦ none | some s ↦ some (c ∷ s) ]

-- `h_file_dim < buflen ? h_file_dim : buflen`
unfoldable pub to_read : ℕ → ℕ → ℕ
to_read h_file_dim buflen = if ltb h_file_dim buflen then h_file_dim else buflen

module _ (os : Os) (fuel : ℕ) (sockfd : Fd) (buflen : ℕ) where
  module _ (fd : Fd) (h_file_dim : ℕ) where
    unfoldable pub store_piece : (ℕ → Io os.World (Unit {0})) → ℕ → List ℕ → Io os.World (Unit {0})
    store_piece again nbytes_tot bs =
        Wrap.write os fd bs >> again ((nbytes_tot + length bs) % u32_mod)

    -- `while (nbytes_tot < h_file_dim)`
    unfoldable pub receive_loop : ℕ → ℕ → Io os.World (Unit {0})
    unfolding store_piece to_read
    receive_loop zero nbytes_tot w = (out_of_fuel, w)
    receive_loop (suc rounds) nbytes_tot w =
        if ltb nbytes_tot h_file_dim
        then (Wrap.read os fuel sockfd (to_read h_file_dim buflen)
              >>= store_piece (receive_loop rounds) nbytes_tot)
            w
        else (ok tt, w)

  unfoldable pub receive_into : ℕ → ℕ → Option Fd → Io os.World (Unit {0})
  receive_into rounds h_file_dim none = quit 2
  receive_into rounds h_file_dim (some fd) = receive_loop fd h_file_dim rounds 0 >> Wrap.close os fd

  unfoldable pub receive_named : ℕ → ℕ → Option FileName → Io os.World (Unit {0})
  unfolding receive_into
  receive_named rounds h_file_dim none = stop undefined
  receive_named rounds h_file_dim (some name) =
      call (os.open_create name) >>= receive_into rounds h_file_dim

  -- `rounds` bounds the rounds of its loop, `fuel` those of each call that it makes. The time of the
  -- last modification is only printed.
  unfoldable pub receive_file : ℕ → FileName → Io os.World (Unit {0})
  unfolding receive_named drop_last
  receive_file rounds filename = do
    readn_or_exit os fuel sockfd 4
    n_file_dim ← readn_or_exit os fuel sockfd 4
    readn_or_exit os fuel sockfd 4
    receive_named rounds (ntohl_bytes n_file_dim) (drop_last filename)
