-- ===== src/Square/Streams.antt =====
-- The memory of the TCP server on the machine of `Post`.
use dp.Base.{suc, ◌≡◌, refl, ap, inr, Bool, true, false, Option, some, none, List, [], ◌∷◌, ◌==◌}
use mathlib.Core.Option.{some-injective, some-ne-none}
use dp.Base.Int.{ℤ, pos}
use dp.Os.Net.{update}
use dp.Square.Udp.{Block}
use dp.Square.Post.{Post, memory, in_use, next_free, given, taken_back, mail}
use dp.Square.Tcp.{Stdio, tcp_service, with_input, with_output, after_read}
use dp.Square.Tcp.Memory.{StreamHeap, Kept, tcp_service-Kept}

-- Two numbers wait on connection 4, and a request that ends too early on any other one: the block for
-- the numbers is allocated all the same. The response cannot be written.
abbrev numbers : Bool → Block → Option (Block × List ℤ)
numbers true b = some (b, pos 3 ∷ pos 4 ∷ [])
numbers false b = none

abbrev broken : Stdio Post
broken = record {
  fdopen_read = λ s w. (some s, w);
  fdopen_write = λ s w. (some s, w);
  read_sequence = λ f w. (
    numbers (f == 4) w.next_block,
    record w { next_block = suc w.next_block; freed = update w.freed w.next_block false },
  );
  write_response = λ f vs us w. (false, w);
  flush = λ f w. (tt, w);
}

read_block :
    (whole : Bool) (next b : Block) (vs : List ℤ) → numbers whole next ≡ some (b, vs) → next ≡ b
read_block true next b vs e = ap (λ (t : Block × List ℤ). t.0) (some-injective _ _ e)
read_block false next b vs e = cc

abbrev broken_laws : StreamHeap broken memory
broken_laws = record {
  live = in_use;
  malloc_fresh =
      λ n w b e. (next_free w b (some-injective _ _ e), given w b (some-injective _ _ e));
  malloc_fails = λ n w e. absurd (some-ne-none _ e);
  free_lem = λ b w. taken_back w b;
  fdopen_read_apart = λ s w. refl;
  fdopen_write_apart = λ s w. refl;
  read_fresh = λ f w b vs e. (
    next_free w b (read_block (f == 4) w.next_block b vs e),
    given w b (read_block (f == 4) w.next_block b vs e),
  );
  read_fails =
      λ f w e. inr (w.next_block, next_free w w.next_block refl, given w w.next_block refl);
  write_apart = λ f vs us w. refl;
  flush_apart = λ f w. refl;
}

-- What the truncated request leaves behind.
left_behind : in_use (tcp_service broken memory 5 (mail [])).1 0 ≡ true
unfolding tcp_service with_input with_output after_read
left_behind = refl

tcp_service-Kept_example :
    Kept broken memory broken_laws 5 (mail []) (tcp_service broken memory 5 (mail []))
tcp_service-Kept_example = tcp_service-Kept broken memory broken_laws 5 (mail [])
