-- ===== src/Args.antt =====
-- The arguments of system calls: xv6-l/syscall.c.
-- Numbers are 32-bit patterns; an `int` is negative from 2 ^ 31 on. `sz` is the size of the process,
-- `esp` its saved stack pointer, and a memory gives the byte at each address.
pub mod Check
mod Tests
use os_playground.Base.{
  ℕ, zero, suc, ◌+◌, ◌-◌, ◌*◌, ◌^◌, ◌%◌, Bool, true, false, Option, none, some, ltb, leb, ◌==◌,
  ◌||◌, if◌then◌else◌,
}

abbrev pub Memory : Type 0
Memory = ℕ → ℕ

-- The 32-bit word at an address, low byte first.
abbrev pub word : Memory → ℕ → ℕ
word m a = m a + m (a + 1) * 2 ^ 8 + m (a + 2) * 2 ^ 16 + m (a + 3) * 2 ^ 24

-- `none` is -1, here and below.
unfoldable pub fetchint : ℕ → Memory → ℕ → Option ℕ
fetchint sz m addr =
    if leb sz addr || ltb sz ((addr + 4) % 2 ^ 32) then none else some (word m addr)

-- The loop of `fetchstr` with `r` bytes before the end of the process, which has passed `n` bytes.
unfoldable pub find_nul : Memory → ℕ → ℕ → ℕ → Option ℕ
find_nul m s n zero = none
find_nul m s n (suc r) =
    let rest = find_nul m s (n + 1) r in if m (s + n) == 0 then some n else rest

unfoldable pub fetchstr : ℕ → Memory → ℕ → Option ℕ
unfolding find_nul
fetchstr sz m addr = if leb sz addr then none else find_nul m addr 0 (sz - addr)

unfoldable pub argint : ℕ → ℕ → Memory → ℕ → Option ℕ
unfolding fetchint
argint sz esp m n = fetchint sz m ((esp + 4 + 4 * n) % 2 ^ 32)

abbrev pub check_block : ℕ → ℕ → Option ℕ → Option ℕ
check_block sz size none = none
check_block sz size (some i) =
    if leb (2 ^ 31) size || leb sz i || ltb sz ((i + size) % 2 ^ 32) then none else some i

unfoldable pub argptr : ℕ → ℕ → Memory → ℕ → ℕ → Option ℕ
unfolding argint
argptr sz esp m n size = check_block sz size (argint sz esp m n)

-- The address and the length of the string.
abbrev pub string_at : ℕ → Memory → Option ℕ → Option (ℕ × ℕ)
string_at sz m none = none
string_at sz m (some addr) = elim (fetchstr sz m addr) [ none ↦ none | some n ↦ some (addr, n) ]

unfoldable pub argstr : ℕ → ℕ → Memory → ℕ → Option (ℕ × ℕ)
unfolding argint fetchstr
argstr sz esp m n = string_at sz m (argint sz esp m n)
