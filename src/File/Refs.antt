-- ===== src/File/Refs.antt =====
-- The references to open files, and the invariant of the file table.
use os_playground.Base.{
  ℕ, zero, suc, ◌+◌, ◌*◌, ◌≤◌, ◌<◌, ◌≡◌, ◌≢◌, inl, inr, refl, sym, ap, ap₂, ◌∙◌, Option, none, some,
  ◌==◌, if◌then◌else◌, update, update_self, update_ne, arith, ℕ_discrete, ==_refl, ==_ne,
  Bool-cases, Option-cases,
}
use os_playground.File.{nfile, nofile, nproc, File, Files, find_file, find_fd}

abbrev pub hits : ℕ → Option ℕ → ℕ
hits f none = 0
hits f (some g) = if g == f then 1 else 0

-- How many of the first `n` descriptors refer to file `f`.
abbrev pub refs : ℕ → (ℕ → Option ℕ) → ℕ → ℕ
refs f fds zero = 0
refs f fds (suc n) = refs f fds n + hits f (fds n)

-- The reference count of every file is the number of descriptors that refer to it.
pub record IsCounted (s : Files) : Type 0 where
  pub counts : (f : ℕ) → f < nfile → (s.file f).ref ≡ refs f s.ofile (nofile * nproc)
  pub valid : (k f : ℕ) → k < nofile * nproc → s.ofile k ≡ some f → f < nfile

hits≤1 : (f : ℕ) (o : Option ℕ) → hits f o ≤ 1
hits≤1 f none = omega arith
hits≤1 f (some g) = elim (Bool-cases (g == f)) [
  | inl e ↦ rw e (omega arith)
  | inr e ↦ rw e (omega arith)
]

pub refs≤ : (f n : ℕ) (fds : ℕ → Option ℕ) → refs f fds n ≤ n
refs≤ f zero fds = omega arith
refs≤ f (suc n) fds = let h = refs≤ f n fds in let k = hits≤1 f (fds n) in omega arith

pub refs_pos : (f k n : ℕ) (fds : ℕ → Option ℕ) → k < n → fds k ≡ some f → 0 < refs f fds n
refs_pos f k zero fds l e = absurd (omega arith)
refs_pos f k (suc n) fds l e = elim (ℕ_discrete k n) [
  | yes q ↦
      let h : hits f (fds n) ≡ 1 =
        ap (λ j. hits f (fds j)) (sym q) ∙ ap (hits f) e ∙ rw (==_refl f) refl in
      omega arith
  | no ne ↦ let h = refs_pos f k n fds (omega arith) e in omega arith
]

refs_outside :
    (f k n : ℕ) (fds : ℕ → Option ℕ) (o : Option ℕ)
    → n ≤ k
    → refs f (update fds k o) n ≡ refs f fds n
refs_outside f k zero fds o l = refl
refs_outside f k (suc n) fds o l =
    let h = refs_outside f k n fds o (omega arith) in
    let g : hits f (update fds k o n) ≡ hits f (fds n) =
      ap (hits f) (update_ne fds k n o (λ e. omega arith)) in
    omega arith

pub refs_update :
    (f k n : ℕ) (fds : ℕ → Option ℕ) (o : Option ℕ)
    → k < n
    → refs f (update fds k o) n + hits f (fds k) ≡ refs f fds n + hits f o
refs_update f k zero fds o l = absurd (omega arith)
refs_update f k (suc n) fds o l = elim (ℕ_discrete n k) [
  | yes e ↦
      let h = refs_outside f k n fds o (omega arith) in
      let g : hits f (update fds k o n) ≡ hits f o =
        ap (hits f) (ap (update fds k o) e ∙ update_self fds k o) in
      let i : hits f (fds n) ≡ hits f (fds k) = ap (λ j. hits f (fds j)) e in omega arith
  | no ne ↦
      let h = refs_update f k n fds o (omega arith) in
      let g : hits f (update fds k o n) ≡ hits f (fds n) = ap (hits f) (update_ne fds k n o ne) in
      omega arith
]

-- Two counts that were equal and change by the same amount stay equal.
balance : (h o : ℕ) {a b u r : ℕ} → a + h ≡ b + o → u + h ≡ r + o → b ≡ r → a ≡ u
balance h o p q e = omega arith

-- The table after descriptor `k` has become `o` and the count of file `f` has changed with it.
pub update-IsCounted :
    (s : Files) (f k : ℕ) (file : ℕ → File) (o : Option ℕ)
    → IsCounted s
    → k < nofile * nproc
    → (file f).ref + hits f (s.ofile k) ≡ (s.file f).ref + hits f o
    → ((g : ℕ) → g ≢ f → (file g).ref ≡ (s.file g).ref)
    → ((g : ℕ) → g ≢ f → hits g (s.ofile k) ≡ hits g o)
    → ((g : ℕ) → o ≡ some g → g < nfile)
    → IsCounted (record { file = file; ofile = update s.ofile k o })
update-IsCounted s f k file o sound l mine others same ok = record {
  counts = λ g h. elim (ℕ_discrete g f) [
    | yes e ↦
        let r : (file g).ref + hits g (s.ofile k) ≡ (s.file g).ref + hits g o = rw e mine in
        let u = refs_update g k (nofile * nproc) s.ofile o l in
        balance (hits g (s.ofile k)) (hits g o) r u (sound.counts g h)
    | no ne ↦
        let r = ap₂ (λ m n. m + n) (others g ne) (same g ne) in
        let u = refs_update g k (nofile * nproc) s.ofile o l in
        balance (hits g (s.ofile k)) (hits g o) r u (sound.counts g h)
  ];
  valid = λ j g h e. elim (ℕ_discrete j k) [
    | yes q ↦ ok g (sym (update_self s.ofile k o) ∙ ap (update s.ofile k o) (sym q) ∙ e)
    | no ne ↦ sound.valid j g h (sym (update_ne s.ofile k j o ne) ∙ e)
  ];
}

pub data FoundFile (s : Files) (n : ℕ) : Option ℕ → Type 0 where
  free : (f : ℕ) → f < n → (s.file f).ref ≡ 0 → FoundFile s n (some f)
  no_file : FoundFile s n none

pub find_file-FoundFile : (f r : ℕ) (s : Files) → FoundFile s (f + r) (find_file f r s)
unfolding find_file
find_file-FoundFile f zero s = no_file
find_file-FoundFile f (suc r) s = elim (ℕ_discrete (s.file f).ref 0) [
  | yes e ↦ rw e (free f (omega arith) e)
  | no ne ↦ rw (==_ne (s.file f).ref 0 ne) (later (find_file-FoundFile (f + 1) r s))
]
  where
    later : {o : Option ℕ} → FoundFile s (f + 1 + r) o → FoundFile s (f + suc r) o
    later (free g l e) = free g (omega arith) e
    later no_file = no_file

pub data FoundFd (s : Files) (k n : ℕ) : Option ℕ → Type 0 where
  unused : (j : ℕ) → k ≤ j → j < n → s.ofile j ≡ none → FoundFd s k n (some j)
  no_fd : FoundFd s k n none

pub find_fd-FoundFd : (k r : ℕ) (s : Files) → FoundFd s k (k + r) (find_fd k r s)
unfolding find_fd
find_fd-FoundFd k zero s = no_fd
find_fd-FoundFd k (suc r) s = elim (Option-cases (s.ofile k)) [
  | inl e ↦ rw (e, find_fd) (unused k (omega arith) (omega arith) e)
  | inr (f, e) ↦ rw (e, find_fd) (later (find_fd-FoundFd (k + 1) r s))
]
  where
    later : {o : Option ℕ} → FoundFd s (k + 1) (k + 1 + r) o → FoundFd s k (k + suc r) o
    later (unused j l h e) = unused j (omega arith) (omega arith) e
    later no_fd = no_fd
