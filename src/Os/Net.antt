-- ===== src/Os/Net.antt =====
-- The abstract view of the machine: what each descriptor still delivers, what was written to it, and
-- the files. It forgets how the system cuts a stream into pieces and when a signal interrupts a call.
pub mod Held
pub mod Laws
pub mod Relay
use dp.Base.{
  ℕ, ◌+◌, ◌≡◌, ◌≢◌, refl, sym, ap, ◌∙◌, fun_ext, arith, Bool, true, false, ◌&&◌, Option, none, some,
  List, [], ◌∷◌, ◌++◌, append-nil, append_assoc, drop, drop-drop, drop_all, drop-min, min, length,
  ◌==◌, if◌then◌else◌,
}
use dp.Os.Calls.{Fd, FileName}

pub record File : Type 0 where
  pub content : List ℕ
  pub mtime : ℕ

-- What has become of a file since it was found: it is being written through a descriptor, or it was
-- closed with this content.
pub data Change : Type 0 where
  by : Fd → Change
  kept : List ℕ → Change

pub record Net : Type 0 where
  -- the bytes that reads will deliver, up to the end of the stream
  pub incoming : Fd → List ℕ
  -- the bytes written so far
  pub sent : Fd → List ℕ
  -- what a file held before it was opened for writing
  pub under : Fd → List ℕ
  pub is_open : Fd → Bool
  pub file_of : Fd → File
  -- a regular file, opened for writing
  pub is_file : Fd → Bool
  -- the files as they were found, and what has become of those that were opened for writing since
  pub disk : FileName → Option File
  pub written : FileName → Option Change

abbrev pub update {ℓ} : {A : Type ℓ} → (ℕ → A) → ℕ → A → ℕ → A
update f k v j = if j == k then v else f j

-- A read takes `n` bytes off a stream.
unfoldable pub consume : Fd → ℕ → Net → Net
consume fd n s = record s { incoming = update s.incoming fd (drop n (s.incoming fd)) }

-- The peer's bytes have come.
unfoldable pub arrive : Fd → List ℕ → Net → Net
arrive fd bs s = record s { incoming = update s.incoming fd (s.incoming fd ++ bs) }

unfoldable pub emit : Fd → List ℕ → Net → Net
emit fd bs s = record s { sent = update s.sent fd (s.sent fd ++ bs) }

-- A fresh descriptor on a file, at its start.
unfoldable pub opened : Fd → File → Net → Net
opened fd f s = record s {
  incoming = update s.incoming fd f.content;
  is_open = update s.is_open fd true;
  file_of = update s.file_of fd f;
}

unfoldable pub same_name : FileName → FileName → Bool
same_name [] [] = true
same_name [] (d ∷ ds) = false
same_name (c ∷ cs) [] = false
same_name (c ∷ cs) (d ∷ ds) = c == d && same_name cs ds

-- A fresh descriptor for writing, without truncation: the old content stays below what is written.
unfoldable pub created : Fd → FileName → List ℕ → Net → Net
created fd name old s = record s {
  sent = update s.sent fd [];
  under = update s.under fd old;
  is_open = update s.is_open fd true;
  is_file = update s.is_file fd true;
  written = λ other. if same_name other name then some (by fd) else s.written other;
}

-- What the file behind a descriptor holds after the writes.
unfoldable pub stored : Fd → Net → List ℕ
stored fd s = s.sent fd ++ drop (length (s.sent fd)) (s.under fd)

unfoldable pub settle_change : Fd → List ℕ → Option Change → Option Change
settle_change fd bs none = none
settle_change fd bs (some (by d)) = if d == fd then some (kept bs) else some (by d)
settle_change fd bs (some (kept cs)) = some (kept cs)

-- What was written through a descriptor stays under the name, whatever the descriptor is used for
-- later.
abbrev pub settle : Fd → Net → Net
settle fd s = record s {
  is_file = update s.is_file fd false;
  written = λ name. settle_change fd (stored fd s) (s.written name);
}

unfoldable pub shut : Fd → Net → Net
shut fd s = record (settle fd s) { is_open = update s.is_open fd false }

abbrev pub content_or_nil : Option File → List ℕ
content_or_nil none = []
content_or_nil (some f) = f.content

unfoldable pub content_now : (Fd → List ℕ) → List ℕ → Option Change → List ℕ
content_now through found none = found
content_now through found (some (by fd)) = through fd
content_now through found (some (kept bs)) = bs

-- What a file holds at the moment; nothing if there is no such file.
unfoldable pub held : FileName → Net → List ℕ
held name s = content_now (λ fd. stored fd s) (content_or_nil (s.disk name)) (s.written name)
