-- ===== src/Fs/Dir/Tests.antt =====
-- A search in a directory over the disk of `Fs.Tests`: all its bytes are the letter A.
use os_playground.Base.{◌+◌, refl, none, inl, arith}
use os_playground.Fs.{Inode}
use os_playground.Fs.Rw.Content.{content}
use os_playground.Fs.Cache.{Itable}
use os_playground.Fs.Dir.{dirlookup}
use os_playground.Fs.Dir.Lookup.{Looked, dirlookup_lem}
use os_playground.Fs.Tests.{
  small_fs, small_file, small_disk, small_bytes, small-IsWhole, letters, letters_bytes,
}

abbrev directory : Inode
directory = record small_file { type = 1; size = 96 }

abbrev opened : Itable
opened = record { icache = λ i. directory; fs = small_fs }

dirlookup_lem_example :
    Looked
      (λ j. letters (3 + j))
      (content directory.addrs small_disk)
      6
      1
      opened
      (dirlookup (λ _. none) 4 3 30 letters opened)
dirlookup_lem_example =
    dirlookup_lem (λ _. none) 4 3 30 6 letters opened (inl (omega arith)) refl (omega arith)
      (omega arith) (λ bn l. small-IsWhole bn (omega arith)) small_bytes letters_bytes
