-- ===== src/Square/Udp.antt =====
-- The calls of the square servers: datagrams and memory, over a state `W` of the machine.
use dp.Base.{ℕ, ◌≡◌, Bool, true, false, Option, none, some, List, [], ◌∷◌, ◌++◌, length, take}
use dp.Os.Calls.{Fd}
use dp.Os.Net.{update}

-- A socket address, as its bytes.
abbrev pub Address : Type 0
Address = List ℕ

pub record Datagram : Type 0 where
  pub bytes : List ℕ
  pub peer : Address

pub record Udp (W : Type 0) : Type 0 where
  -- the size of the buffer; the datagram, cut to it, and who sent it
  pub recvfrom : Fd → ℕ → W → Option Datagram × W
  pub sendto : Fd → Datagram → W → Option ℕ × W

abbrev pub Block : Type 0
Block = ℕ

pub record Heap (W : Type 0) : Type 0 where
  pub malloc : ℕ → W → Option Block × W
  pub free : Block → W → W

-- A network that delivers: what waits on the socket comes in order, and what is sent goes out whole.
pub record UdpLaws {W : Type 0} (udp : Udp W) (s : Fd) : Type 0 where
  pub waiting : W → List Datagram
  pub gone : W → List Datagram
  pub recvfrom_next :
      (room : ℕ) (w : W) (d : Datagram) (rest : List Datagram)
      → waiting w ≡ d ∷ rest
      → ((udp.recvfrom s room w).0 ≡ some (record { bytes = take room d.bytes; peer = d.peer }))
        × (waiting (udp.recvfrom s room w).1 ≡ rest)
        × (gone (udp.recvfrom s room w).1 ≡ gone w)
  pub sendto_whole :
      (d : Datagram) (w : W)
      → ((udp.sendto s d w).0 ≡ some (length d.bytes))
        × (waiting (udp.sendto s d w).1 ≡ waiting w)
        × (gone (udp.sendto s d w).1 ≡ gone w ++ (d ∷ []))

-- What `malloc` gives was not in use; a failed call changes nothing, and sending a datagram does not
-- touch the memory of the process.
pub record HeapLaws {W : Type 0} (heap : Heap W) (udp : Udp W) : Type 0 where
  pub live : W → Block → Bool
  pub malloc_fresh :
      (n : ℕ) (w : W) (b : Block)
      → (heap.malloc n w).0 ≡ some b
      → (live w b ≡ false) × (live (heap.malloc n w).1 ≡ update (live w) b true)
  pub malloc_fails :
      (n : ℕ) (w : W) → (heap.malloc n w).0 ≡ none → live (heap.malloc n w).1 ≡ live w
  pub free_lem : (b : Block) (w : W) → live (heap.free b w) ≡ update (live w) b false
  pub sendto_apart : (s : Fd) (d : Datagram) (w : W) → live (udp.sendto s d w).1 ≡ live w
