-- ===== src/File/Memo.antt =====
-- Opening the memo keeps the reference counts.
use mathlib.Core.Option.{some-injective}
use os_playground.Base.{
  ℕ, ◌+◌, ◌*◌, ◌<◌, ◌≡◌, ◌≢◌, sym, ap, ◌∙◌, subst, Option, none, some, Bool, update, update_self,
  update_ne, arith, ℕ_discrete,
}
use os_playground.File.{
  nfile, nofile, nproc, fd_none, File, Files, set_file, alloc_at, filealloc, fd_at, fdalloc,
  refused, as_memo, memo_fd, memo_file, open_memo, MemoResult,
}
use os_playground.Share.{Sharing, getshared}
use os_playground.File.Refs.{
  hits, IsCounted, update-IsCounted, FoundFile, free, no_file, find_file-FoundFile, FoundFd, unused,
  no_fd, find_fd-FoundFd,
}
use os_playground.File.Calls.{Returns, hits_self, hits_other, fileclose_last}

module _ (s : Files) (sound : IsCounted s) (p : ℕ) (inside : p < nproc) where
  same-IsCounted :
      (file : ℕ → File)
      → ((g : ℕ) → (file g).ref ≡ (s.file g).ref)
      → IsCounted (record { file = file; ofile = s.ofile })
  same-IsCounted file same = record {
    counts = λ g l. same g ∙ sound.counts g l;
    valid = sound.valid;
  }

  -- The table after `filealloc` has found file `f`.
  abbrev taken : ℕ → Files
  taken f = set_file f (record (s.file f) { ref = 1 }) s

  taken_ref : (f : ℕ) → ((taken f).file f).ref ≡ 1
  taken_ref f = ap (λ y. y.ref) (update_self s.file f (record (s.file f) { ref = 1 }))

  -- What becomes of file `f` after `filealloc` changes no other file.
  others_ref :
      (f : ℕ) (y : File) (g : ℕ) → g ≢ f → (update (taken f).file f y g).ref ≡ (s.file g).ref
  others_ref f y g ne =
      ap (λ z. z.ref)
        (update_ne (taken f).file f g y ne
          ∙ update_ne s.file f g (record (s.file f) { ref = 1 }) ne)

  memo_fd-IsCounted :
      (f : ℕ) {o : Option ℕ}
      → f < nfile
      → (s.file f).ref ≡ 0
      → FoundFd (taken f) (nofile * p) (nofile * p + nofile) o
      → Returns (λ r. IsCounted r.1) (memo_fd f (fd_at p f (taken f) o) (taken f))
  memo_fd-IsCounted f l z no_fd =
      let y = record ((taken f).file f) { ref = 0; type = fd_none } in
      subst (Returns (λ r. IsCounted r.1))
        (sym (ap refused (fileclose_last (taken f) f (taken_ref f))))
        (same-IsCounted (update (taken f).file f y) (λ g. elim (ℕ_discrete g f) [
          | yes e ↦
              ap (λ n. (update (taken f).file f y n).ref) e
              ∙ ap (λ q. q.ref) (update_self (taken f).file f y)
              ∙ sym z
              ∙ ap (λ n. (s.file n).ref) (sym e)
          | no ne ↦ others_ref f y g ne
        ]))
  memo_fd-IsCounted f l z (unused k lo hi e) =
      let y = as_memo ((taken f).file f) in
      update-IsCounted s f k (update (taken f).file f y) (some f) sound (omega arith)
        (first (ap (λ q. q.ref) (update_self (taken f).file f y) ∙ taken_ref f) z (ap (hits f) e)
          (hits_self f))
        (others_ref f y) (λ g ne. ap (hits g) e ∙ sym (hits_other g f ne))
        (λ g q. subst (λ h. h < nfile) (some-injective f g q) l)
    where
      first : {a b h i : ℕ} → a ≡ 1 → b ≡ 0 → h ≡ 0 → i ≡ 1 → a + h ≡ b + i
      first u v w x = omega arith

  -- Before the shared page is touched there is no panic, also where there is no free descriptor.
  pub open_memo-IsCounted : Returns (λ r. IsCounted r.1) (open_memo p s)
  unfolding fdalloc filealloc
  open_memo-IsCounted = from (find_file-FoundFile 0 nfile s)
    where
      from :
          {o : Option ℕ}
          → FoundFile s nfile o
          → Returns (λ r. IsCounted r.1) (memo_file p (alloc_at s o) s)
      from no_file = sound
      from (free f l z) = memo_fd-IsCounted f l z (find_fd-FoundFd (nofile * p) nofile (taken f))

  module _ (mem : Option ℕ) (room : Bool) (sh : Sharing) (lmemo : ℕ → ℕ) where
    -- What `sys_memo` comes to: -1, a descriptor with an empty memo in the page that the process has mapped,
    -- or a panic because `getshared` panics or has mapped no page.
    pub data Opened : MemoResult → Type 0 where
      not_opened : (t : Files) → IsCounted t → Opened (some (none, t, sh, lmemo))
      opened :
          (fd page : ℕ) (t : Files) (u : Sharing)
          → IsCounted t
          → getshared p 2 mem room sh ≡ some u
          → u.mapped p 2 ≡ some page
          → Opened (some (some fd, t, u, update lmemo page 0))
      remap : getshared p 2 mem room sh ≡ none → Opened none
      unmapped :
          (u : Sharing) → getshared p 2 mem room sh ≡ some u → u.mapped p 2 ≡ none → Opened none
