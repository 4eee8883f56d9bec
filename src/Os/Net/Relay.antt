-- ===== src/Os/Net/Relay.antt =====
-- A program that passes the bytes of one descriptor on to another one.
use dp.Base.{ℕ, ◌+◌, ◌-◌, ◌≡◌, ap, ◌∙◌, arith, length, take, drop, length-drop, take-take-drop}
use dp.Os.Calls.{Fd}
use dp.Os.Net.{Net, emit, consume}
use dp.Os.Net.Laws.{
  emit-nil, consume-zero, relay-relay, incoming-consume, incoming-emit, is_file-consume,
  is_file-emit,
}

-- The first `n` bytes that come in on `fd` have gone out on `connfd`.
abbrev pub relayed : Fd → Fd → ℕ → Net → Net
relayed fd connfd n s = emit connfd (take n (s.incoming fd)) (consume fd n s)

-- What is left on `fd` after a piece was relayed.
pub incoming-relayed :
    (fd connfd n : ℕ) (s : Net) → (relayed fd connfd n s).incoming fd ≡ drop n (s.incoming fd)
incoming-relayed fd connfd n s =
    incoming-emit connfd fd (take n (s.incoming fd)) (consume fd n s) ∙ incoming-consume fd n s

pub relayed-relayed :
    (fd connfd k m n : ℕ) (s s' : Net)
    → s' ≡ relayed fd connfd k s
    → k + m ≡ n
    → relayed fd connfd m s' ≡ relayed fd connfd n s
relayed-relayed fd connfd k m n s s' e sum =
    ap (relayed fd connfd m) e
    ∙ ap (λ t. emit connfd (take m t) (consume fd m (relayed fd connfd k s)))
        (incoming-relayed fd connfd k s)
    ∙ relay-relay fd connfd k m n (take k (s.incoming fd)) (take m (drop k (s.incoming fd))) s sum
    ∙ ap (λ t. emit connfd t (consume fd n s)) (take-take-drop k m n (s.incoming fd) sum)

pub relayed-zero : (fd connfd : ℕ) (s : Net) → relayed fd connfd 0 s ≡ s
relayed-zero fd connfd s = emit-nil connfd (consume fd 0 s) ∙ consume-zero fd s

pub length-relayed :
    (fd connfd k left : ℕ) (s s' : Net)
    → length (s.incoming fd) ≡ left
    → s' ≡ relayed fd connfd k s
    → length (s'.incoming fd) ≡ left - k
length-relayed fd connfd k left s s' h e =
    ap (λ t. length (t.incoming fd)) e
    ∙ ap length (incoming-relayed fd connfd k s)
    ∙ omega (arith, length-drop k (s.incoming fd))

pub is_file-relayed :
    (fd connfd j n : ℕ) (s : Net) → (relayed fd connfd n s).is_file j ≡ s.is_file j
is_file-relayed fd connfd j n s =
    is_file-emit connfd j (take n (s.incoming fd)) (consume fd n s) ∙ is_file-consume fd n j s
