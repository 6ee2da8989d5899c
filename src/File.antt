-- ===== src/File.antt =====
-- The table of open files of xv6-l/file.c, and the descriptors of the processes: `argfd`, `fdalloc`,
-- `sys_dup`, `sys_close` and `sys_memo` of xv6-l/sysfile.c.
-- Pointers to files are indices into the table. The descriptors of all processes are one array:
-- `ofile[fd]` of the process in slot `p` stands at `nofile * p + fd`. The number that a system call gets
-- as its argument is an `int`, given by its bit pattern, so that a negative one is at least 2 ^ 31.
pub mod Refs
pub mod Calls
pub mod Memo
mod Tests
use os_playground.Base.{
  ℕ, zero, suc, ◌+◌, ◌-◌, ◌*◌, ◌^◌, ◌%◌, Bool, true, false, Option, none, some, leb, ◌==◌,
  if◌then◌else◌, update,
}
use os_playground.Share.{Sharing, getshared}

-- NFILE, NOFILE and NPROC of param.h
abbrev pub nfile : ℕ
nfile = 100

abbrev pub nofile : ℕ
nofile = 16

abbrev pub nproc : ℕ
nproc = 64

pub data FileType : Type 0 where
  fd_none : FileType
  fd_pipe : FileType
  fd_inode : FileType
  fd_memo : FileType

-- `struct file`
pub record File : Type 0 where
  pub type : FileType
  pub ref : ℕ
  pub readable : Bool
  pub writable : Bool
  pub pipe : ℕ
  pub ip : ℕ
  pub off : ℕ

pub record Files : Type 0 where
  pub file : ℕ → File
  pub ofile : ℕ → Option ℕ

abbrev pub set_file : ℕ → File → Files → Files
set_file f x s = record s { file = update s.file f x }

abbrev pub set_fd : ℕ → Option ℕ → Files → Files
set_fd k o s = record s { ofile = update s.ofile k o }

-- The loop of `filealloc` from file `f` on, with `r` files to go.
unfoldable pub find_file : ℕ → ℕ → Files → Option ℕ
find_file f zero s = none
find_file f (suc r) s =
    let rest = find_file (f + 1) r s in if (s.file f).ref == 0 then some f else rest

abbrev pub alloc_at : Files → Option ℕ → Option (ℕ × Files)
alloc_at s none = none
alloc_at s (some f) = some (f, set_file f (record (s.file f) { ref = 1 }) s)

unfoldable pub filealloc : Files → Option (ℕ × Files)
unfolding find_file
filealloc s = alloc_at s (find_file 0 nfile s)

-- `none` is the panic.
unfoldable pub filedup : ℕ → Files → Option Files
filedup f s =
    if (s.file f).ref == 0
    then none
    else some (set_file f (record (s.file f) { ref = ((s.file f).ref + 1) % 2 ^ 32 }) s)

-- What `fileclose` does after it has released the table.
pub data Closing : Type 0 where
  nothing : Closing
  close_pipe : ℕ → Bool → Closing
  put_inode : ℕ → Closing

abbrev pub closing : FileType → File → Closing
closing fd_none ff = nothing
closing fd_pipe ff = close_pipe ff.pipe ff.writable
closing fd_inode ff = put_inode ff.ip
closing fd_memo ff = nothing

-- `none` is the panic.
unfoldable pub fileclose : ℕ → Files → Option (Closing × Files)
fileclose f s =
    let ff = s.file f in
    if ff.ref == 0
    then none
    else if ff.ref == 1
    then some (closing ff.type ff, set_file f (record ff { ref = 0; type = fd_none }) s)
    else some (nothing, set_file f (record ff { ref = ff.ref - 1 }) s)

-- The open file behind a descriptor; `none` is -1.
unfoldable pub argfd : ℕ → ℕ → Files → Option ℕ
argfd p fd s = if leb nofile fd then none else s.ofile (nofile * p + fd)

-- The loop of `fdalloc` from descriptor `k` of the array on, with `r` to go.
unfoldable pub find_fd : ℕ → ℕ → Files → Option ℕ
find_fd k zero s = none
find_fd k (suc r) s =
    let rest = find_fd (k + 1) r s in elim (s.ofile k) [ none ↦ some k | some f ↦ rest ]

abbrev pub fd_at : ℕ → ℕ → Files → Option ℕ → Option (ℕ × Files)
fd_at p f s none = none
fd_at p f s (some k) = some (k - nofile * p, set_fd k (some f) s)

-- `none` is -1.
unfoldable pub fdalloc : ℕ → ℕ → Files → Option (ℕ × Files)
unfolding find_fd
fdalloc p f s = fd_at p f s (find_fd (nofile * p) nofile s)

-- A system call returns a number or -1, or it panics.
abbrev pub Result : Type 0
Result = Option (Option ℕ × Files)

-- `none` is the panic of `filedup`.
abbrev pub duplicated : ℕ → Option Files → Result
duplicated fd none = none
duplicated fd (some s) = some (some fd, s)

abbrev pub dup_to : ℕ → Option (ℕ × Files) → Files → Result
dup_to f none s = some (none, s)
dup_to f (some (fd, s')) s = duplicated fd (filedup f s')

abbrev pub dup_from : ℕ → Option ℕ → Files → Result
dup_from p none s = some (none, s)
dup_from p (some f) s = dup_to f (fdalloc p f s) s

abbrev pub sys_dup : ℕ → ℕ → Files → Result
sys_dup p fd s = dup_from p (argfd p fd s) s

abbrev pub closed : Option (Closing × Files) → Option (Option Closing × Files)
closed none = none
closed (some (c, s)) = some (some c, s)

abbrev pub close_file : ℕ → Option ℕ → Files → Option (Option Closing × Files)
close_file k none s = some (none, s)
close_file k (some f) s = closed (fileclose f (set_fd k none s))

-- With what is to be closed, and `none` for -1.
abbrev pub sys_close : ℕ → ℕ → Files → Option (Option Closing × Files)
sys_close p fd s = close_file (nofile * p + fd) (argfd p fd s) s

abbrev pub as_memo : File → File
as_memo x = record x { type = fd_memo; off = 0; readable = true; writable = true }

abbrev pub refused : Option (Closing × Files) → Result
refused none = none
refused (some (c, s)) = some (none, s)

abbrev pub memo_fd : ℕ → Option (ℕ × Files) → Files → Result
memo_fd f none s = refused (fileclose f s)
memo_fd f (some (fd, t)) s = some (some fd, set_file f (as_memo (t.file f)) t)

abbrev pub memo_file : ℕ → Option (ℕ × Files) → Files → Result
memo_file p none s = some (none, s)
memo_file p (some (f, t)) s = memo_fd f (fdalloc p f t) t

-- Up to the call of `getshared`.
abbrev pub open_memo : ℕ → Files → Result
open_memo p s = memo_file p (filealloc s) s

-- The number, the table, the shared pages, and `lmemo` of the memo in each page.
abbrev pub MemoResult : Type 0
MemoResult = Option (Option ℕ × Files × Sharing × (ℕ → ℕ))

abbrev pub at_page : ℕ → Files → Sharing → (ℕ → ℕ) → Option ℕ → MemoResult
at_page fd s t lmemo none = none
at_page fd s t lmemo (some page) = some (some fd, s, t, update lmemo page 0)

-- Without a page at the address of the memo, the write to it is a page fault in the kernel, which is the
-- panic "trap".
abbrev pub clear_memo : ℕ → ℕ → Files → (ℕ → ℕ) → Option Sharing → MemoResult
clear_memo p fd s lmemo none = none
clear_memo p fd s lmemo (some t) = at_page fd s t lmemo (t.mapped p 2)

abbrev pub with_memo : ℕ → Option ℕ → Bool → Sharing → (ℕ → ℕ) → Result → MemoResult
with_memo p mem room sh lmemo none = none
with_memo p mem room sh lmemo (some (none, s)) = some (none, s, sh, lmemo)
with_memo p mem room sh lmemo (some (some fd, s)) =
    clear_memo p fd s lmemo (getshared p 2 mem room sh)

-- `none` is a panic. `mem` and `room` are those of `getshared`.
unfoldable pub sys_memo : ℕ → Option ℕ → Bool → Files → Sharing → (ℕ → ℕ) → MemoResult
unfolding filealloc fdalloc fileclose getshared
sys_memo p mem room s sh lmemo = with_memo p mem room sh lmemo (open_memo p s)
