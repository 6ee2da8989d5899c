-- ===== src/Fs/Cache/Tests.antt =====
-- Runs of the inode cache over the disk of `Fs.Tests`.
use os_playground.Base.{◌≡◌, refl, true, false, some, [], ◌∷◌, inl, arith}
use os_playground.Fs.Rw.{iupdate}
use os_playground.Fs.Cache.{Itable, set_inode, returns, idup, look, iget, ilock, drop_ref}
use os_playground.Fs.Cache.Load.{HasWidth, as_loaded, ilock-iupdate}
use os_playground.Fs.Cache.Refs.{IsSound, get, dup, drop}
use os_playground.Fs.Cache.Safety.{start, further, Calls-IsSound}
use os_playground.Fs.Alloc.{Chosen, ialloc, ialloc_lem}
use os_playground.Fs.Tests.{small_fs, small_file}

-- The file has been written back, and its entry has not been read.
abbrev unread : Itable
unread = record {
  icache = λ i. record small_file {
    ref = 1;
    locked = false;
    valid = false;
    type = 0;
    size = 0;
    addrs = λ _. 0;
  };
  fs = iupdate small_file small_fs;
}

small-HasWidth : HasWidth small_file
small-HasWidth = record {
  type = omega arith;
  major = omega arith;
  minor = omega arith;
  nlink = omega arith;
  size = omega arith;
  addrs = λ k l. ground arith;
}

ilock-iupdate_example :
    ilock 9 4 unread
    ≡ returns (
        set_inode 4
          (record (as_loaded small_file (unread.icache 4)) { locked = true; pid = 9; valid = true })
          unread)
ilock-iupdate_example =
    ilock-iupdate 9 4 small_file unread small_fs small-HasWidth (λ e. omega arith) refl refl refl
      refl refl

abbrev empty_cache : Itable
empty_cache = record {
  icache = λ i. record small_file { ref = 0; locked = false; valid = false };
  fs = small_fs;
}

abbrev one_entry : Itable
one_entry =
    set_inode 0 (record (empty_cache.icache 0) { dev = 1; inum = 2; ref = 1; valid = false })
      empty_cache

-- The first entry is used, and a second call finds it.
first_get : iget 1 2 empty_cache ≡ some (0, one_entry)
unfolding iget look
first_get = refl

second_get : iget 1 2 one_entry ≡ some (0, idup 0 one_entry)
unfolding iget look idup
second_get = refl

Calls-IsSound_example : IsSound (drop_ref 0 (idup 0 one_entry)) (0 ∷ [])
Calls-IsSound_example = Calls-IsSound empty_cache (drop_ref 0 (idup 0 one_entry)) (0 ∷ []) (
    further (idup 0 one_entry) (drop_ref 0 (idup 0 one_entry)) (0 ∷ 0 ∷ []) (0 ∷ [])
      (further one_entry (idup 0 one_entry) (0 ∷ []) (0 ∷ 0 ∷ [])
        (further empty_cache one_entry [] (0 ∷ []) (start (λ i l. refl))
          (get 1 2 0 one_entry (omega arith) first_get))
        (dup 0 (omega arith) (inl refl)))
      (drop 0 (inl refl)))

ialloc_lem_example : Chosen 1 2 empty_cache (ialloc 1 2 empty_cache)
ialloc_lem_example = ialloc_lem 1 2 empty_cache (omega arith)
