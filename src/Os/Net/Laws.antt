-- ===== src/Os/Net/Laws.antt =====
-- The laws of the operations on the abstract view.
use dp.Base.{
  ℕ, ◌+◌, ◌≡◌, ◌≢◌, refl, sym, ap, ◌∙◌, fun_ext, arith, true, false, List, [], ◌++◌, append-nil,
  append_assoc, ==_self, ◌∷◌, drop, drop-drop, drop_all, drop-min, min, length,
}
use dp.Os.Net.{
  Net, File, update, consume, emit, shut, opened, created, stored, held, arrive, same_name,
  settle_change, content_now,
}

update-update {ℓ} :
    {A : Type ℓ} (f : ℕ → A) (k : ℕ) (u v : A) → update (update f k u) k v ≡ update f k v
update-update f k u v = fun_ext λ j. ground arith

update_same {ℓ} : {A : Type ℓ} (f : ℕ → A) (k : ℕ) {v : A} → v ≡ f k → update f k v ≡ f
update_same f k h = fun_ext λ j. ground arith

pub incoming-consume : (fd n : ℕ) (s : Net) → (consume fd n s).incoming fd ≡ drop n (s.incoming fd)
unfolding consume
incoming-consume fd n s = ground arith

pub incoming-consume_ne :
    (fd n j : ℕ) (s : Net) → j ≢ fd → (consume fd n s).incoming j ≡ s.incoming j
unfolding consume
incoming-consume_ne fd n j s h = ground arith

pub sent-emit : (fd : ℕ) (bs : List ℕ) (s : Net) → (emit fd bs s).sent fd ≡ s.sent fd ++ bs
unfolding emit
sent-emit fd bs s = ground arith

pub sent-emit_ne : (fd j : ℕ) (bs : List ℕ) (s : Net) → j ≢ fd → (emit fd bs s).sent j ≡ s.sent j
unfolding emit
sent-emit_ne fd j bs s h = ground arith

pub incoming-emit : (fd j : ℕ) (bs : List ℕ) (s : Net) → (emit fd bs s).incoming j ≡ s.incoming j
unfolding emit
incoming-emit fd j bs s = refl

pub sent-consume : (fd n j : ℕ) (s : Net) → (consume fd n s).sent j ≡ s.sent j
unfolding consume
sent-consume fd n j s = refl

pub incoming-opened : (fd : ℕ) (f : File) (s : Net) → (opened fd f s).incoming fd ≡ f.content
unfolding opened
incoming-opened fd f s = ground arith

pub file_of-opened : (fd : ℕ) (f : File) (s : Net) → (opened fd f s).file_of fd ≡ f
unfolding opened
file_of-opened fd f s = ground arith

pub disk-consume : (fd n : ℕ) (s : Net) → (consume fd n s).disk ≡ s.disk
unfolding consume
disk-consume fd n s = refl

pub written-consume : (fd n : ℕ) (s : Net) → (consume fd n s).written ≡ s.written
unfolding consume
written-consume fd n s = refl

pub consume-zero : (fd : ℕ) (s : Net) → consume fd 0 s ≡ s
unfolding consume
consume-zero fd s = λ i. record s { incoming = update_same s.incoming fd refl i }

-- Reading on at the end of a stream changes nothing.
pub consume_end : (fd n : ℕ) (s : Net) → s.incoming fd ≡ [] → consume fd n s ≡ s
unfolding consume
consume_end fd n s e = λ i. record s { incoming = update_same s.incoming fd none_left i }
  where
    none_left : drop n (s.incoming fd) ≡ s.incoming fd
    none_left = rw e (drop_all n [] (omega arith))

pub consume-consume :
    (fd k m n : ℕ) (s : Net) → k + m ≡ n → consume fd m (consume fd k s) ≡ consume fd n s
unfolding consume
consume-consume fd k m n s e = λ i. record s { incoming = same i }
  where
    same :
        update
          (update s.incoming fd (drop k (s.incoming fd)))
          fd
          (drop m (update s.incoming fd (drop k (s.incoming fd)) fd))
        ≡ update s.incoming fd (drop n (s.incoming fd))
    same = fun_ext λ j. ground (arith, drop-drop k m n (s.incoming fd) e)

pub emit-nil : (fd : ℕ) (s : Net) → emit fd [] s ≡ s
unfolding emit
emit-nil fd s = λ i. record s { sent = update_same s.sent fd (append-nil (s.sent fd)) i }

pub emit-emit :
    (fd : ℕ) (xs ys : List ℕ) (s : Net) → emit fd ys (emit fd xs s) ≡ emit fd (xs ++ ys) s
unfolding emit
emit-emit fd xs ys s = λ i. record s { sent = same i }
  where
    same :
        update (update s.sent fd (s.sent fd ++ xs)) fd (update s.sent fd (s.sent fd ++ xs) fd ++ ys)
        ≡ update s.sent fd (s.sent fd ++ (xs ++ ys))
    same = fun_ext λ j. ground (arith, append_assoc (s.sent fd) xs ys)

-- Reads of one descriptor and writes to any descriptor commute.
pub emit-consume :
    (fd n j : ℕ) (bs : List ℕ) (s : Net) → emit j bs (consume fd n s) ≡ consume fd n (emit j bs s)
unfolding emit consume
emit-consume fd n j bs s = refl

-- Asking for more than a stream holds takes what it holds.
pub consume-min :
    (fd n k : ℕ) (s : Net) → k ≡ min n (length (s.incoming fd)) → consume fd n s ≡ consume fd k s
unfolding consume
consume-min fd n k s e = λ i. record s { incoming = update s.incoming fd (same i) }
  where
    same : drop n (s.incoming fd) ≡ drop k (s.incoming fd)
    same = drop-min n k (s.incoming fd) e

-- Two reads of one descriptor, each passed on to another one.
pub relay-relay :
    (fd j k m n : ℕ) (xs ys : List ℕ) (s : Net)
    → k + m ≡ n
    → emit j ys (consume fd m (emit j xs (consume fd k s))) ≡ emit j (xs ++ ys) (consume fd n s)
relay-relay fd j k m n xs ys s e =
    ap (emit j ys) (sym (emit-consume fd m j xs (consume fd k s)))
    ∙ emit-emit j xs ys (consume fd m (consume fd k s))
    ∙ ap (emit j (xs ++ ys)) (consume-consume fd k m n s e)

pub is_file-consume : (fd n j : ℕ) (s : Net) → (consume fd n s).is_file j ≡ s.is_file j
unfolding consume
is_file-consume fd n j s = refl

pub is_file-emit : (fd j : ℕ) (bs : List ℕ) (s : Net) → (emit fd bs s).is_file j ≡ s.is_file j
unfolding emit
is_file-emit fd j bs s = refl

pub incoming-created :
    (fd j : ℕ) (name old : List ℕ) (s : Net) → (created fd name old s).incoming j ≡ s.incoming j
unfolding created
incoming-created fd j name old s = refl

pub is_file-created :
    (fd : ℕ) (name old : List ℕ) (s : Net) → (created fd name old s).is_file fd ≡ true
unfolding created
is_file-created fd name old s = ground arith

-- A new file, or an old one that is written over from its start.
pub stored-emit-created :
    (fd j n : ℕ) (name old bs : List ℕ) (s : Net)
    → stored fd (shut fd (emit fd bs (consume j n (created fd name old s))))
      ≡ bs ++ drop (length bs) old
unfolding stored shut emit consume created
stored-emit-created fd j n name old bs s = ground arith

pub held-consume : (fd n : ℕ) (name : List ℕ) (s : Net) → held name (consume fd n s) ≡ held name s
unfolding held stored consume
held-consume fd n name s = refl

pub is_open-consume : (fd n j : ℕ) (s : Net) → (consume fd n s).is_open j ≡ s.is_open j
unfolding consume
is_open-consume fd n j s = refl

pub is_open-shut : (fd : ℕ) (s : Net) → (shut fd s).is_open fd ≡ false
unfolding shut
is_open-shut fd s = ground arith

pub incoming-shut : (fd j : ℕ) (s : Net) → (shut fd s).incoming j ≡ s.incoming j
unfolding shut
incoming-shut fd j s = refl

pub sent-opened : (fd j : ℕ) (f : File) (s : Net) → (opened fd f s).sent j ≡ s.sent j
unfolding opened
sent-opened fd j f s = refl

pub same_name_self : (name : List ℕ) → same_name name name ≡ true
unfolding same_name
same_name_self [] = refl
same_name_self (c ∷ cs) = rw (==_self c) (same_name_self cs)

-- The same, looked up by the name of the file.
pub held-emit-created :
    (fd j n : ℕ) (name old bs : List ℕ) (s : Net)
    → held name (shut fd (emit fd bs (consume j n (created fd name old s))))
      ≡ bs ++ drop (length bs) old
unfolding shut emit consume created held settle_change content_now stored
held-emit-created fd j n name old bs s = rw (same_name_self name) (ground (arith, ==_self fd))

pub incoming-arrive :
    (fd : ℕ) (bs : List ℕ) (s : Net) → (arrive fd bs s).incoming fd ≡ s.incoming fd ++ bs
unfolding arrive
incoming-arrive fd bs s = ground arith

pub arrive_keeps :
    (fd : ℕ) (bs : List ℕ) (s : Net)
    → ((arrive fd bs s).disk ≡ s.disk)
      × ((arrive fd bs s).written ≡ s.written)
      × ((arrive fd bs s).sent ≡ s.sent)
      × ((arrive fd bs s).is_open ≡ s.is_open)
unfolding arrive
arrive_keeps fd bs s = (refl, refl, refl, refl)

-- The streams after a file was read on `fd` and bytes were written on `connfd`.
pub file_sent_keeps :
    (connfd fd n : ℕ) (bs : List ℕ) (f : File) (s : Net)
    → s.is_open fd ≡ false
    → s.is_open connfd ≡ true
    → ((emit connfd bs (consume fd n (opened fd f s))).incoming connfd ≡ s.incoming connfd)
      × ((emit connfd bs (consume fd n (opened fd f s))).is_open connfd ≡ true)
      × ((emit connfd bs (consume fd n (opened fd f s))).sent connfd ≡ s.sent connfd ++ bs)
      × ((emit connfd bs (consume fd n (opened fd f s))).disk ≡ s.disk)
      × ((emit connfd bs (consume fd n (opened fd f s))).written ≡ s.written)
unfolding emit consume opened
file_sent_keeps connfd fd n bs f s fresh in_use =
    (ground arith, ground arith, ground arith, refl, refl)
