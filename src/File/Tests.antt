-- ===== src/File/Tests.antt =====
-- Calls on descriptors, and the theorems about them at a table with one open file.
use mathlib.Core.Option.{IsSome}
use os_playground.Base.{
  ℕ, zero, suc, ◌+◌, ◌*◌, ◌<◌, ◌≡◌, refl, sym, subst, Option, some, none, true, false, update,
  arith, ap, [],
}
use os_playground.File.{
  nofile, nproc, File, Files, fd_none, fd_memo, sys_dup, sys_close, open_memo, sys_memo,
}
use os_playground.File.Refs.{IsCounted, refs}
use os_playground.File.Calls.{Returns, to_close, sys_dup-IsCounted, sys_close_lem}
use os_playground.File.Memo.{open_memo-IsCounted}
use os_playground.Share.{Sharing, getshared}

-- No file is open.
abbrev no_files : Files
no_files = record {
  file = λ f. record {
    type = fd_none;
    ref = 0;
    readable = false;
    writable = false;
    pipe = 0;
    ip = 0;
    off = 0;
  };
  ofile = λ k. none;
}

none_open : (f n : ℕ) → 0 ≡ refs f no_files.ofile n
none_open f zero = refl
none_open f (suc n) = ap (λ m. m + 0) (none_open f n)

no_hit : (f : ℕ) → ◌≡◌ {A = Option ℕ} none (some f) → f < 100
no_hit f e = absurd (subst IsSome (sym e) tt)

no_files-IsCounted : IsCounted no_files
no_files-IsCounted = record {
  counts = λ f l. none_open f (nofile * nproc);
  valid = λ k f l e. no_hit f e;
}

-- No page is shared.
abbrev none_shared : Sharing
none_shared = record {
  shared = λ i. 0;
  recs = λ i. 0;
  held = λ q i. false;
  mapped = λ q i. none;
  freed = [];
}

-- The process in slot 3 has a memo open at descriptor 0.
abbrev one_file : Files
one_file = record {
  file =
      update (update no_files.file 0 (record (no_files.file 0) { ref = 1 })) 0
        (record (no_files.file 0) { ref = 1; type = fd_memo; readable = true; writable = true });
  ofile = update (no_files.ofile) 48 (some 0);
}

opens : open_memo 3 no_files ≡ some (some 0, one_file)
unfolding os_playground.File.filealloc os_playground.File.fdalloc os_playground.File.find_file
    os_playground.File.find_fd
opens = refl

one_file-IsCounted : IsCounted one_file
unfolding os_playground.File.filealloc os_playground.File.fdalloc os_playground.File.find_file
    os_playground.File.find_fd
one_file-IsCounted = open_memo-IsCounted no_files no_files-IsCounted 3 (omega arith)

-- Without memory for the shared page, the call that opens the memo panics.
no_memory : sys_memo 3 none true no_files none_shared (λ x. 9) ≡ none
unfolding sys_memo getshared os_playground.File.filealloc os_playground.File.fdalloc
    os_playground.File.find_file os_playground.File.find_fd
no_memory = refl

sys_dup-IsCounted_example : Returns (λ r. IsCounted r.1) (sys_dup 3 0 one_file)
sys_dup-IsCounted_example = sys_dup-IsCounted one_file one_file-IsCounted 3 (omega arith) 0

sys_close_lem_example :
    (t : Files) × (sys_close 3 0 one_file ≡ some (some (to_close one_file 48 0), t))
    × (t.ofile ≡ update (one_file.ofile) 48 none)
    × IsCounted t
sys_close_lem_example =
    sys_close_lem one_file one_file-IsCounted 3 (omega arith) 0 0 (omega arith) refl
