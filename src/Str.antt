-- ===== src/Str.antt =====
-- Strings and memory: xv6-l/string.c, with `stosb` and `stosl` of xv6-l/x86.h.
-- A memory gives the byte at each address. No area reaches past the end of the address space, so that
-- address arithmetic does not wrap. A loop that counts `n` down is a recursion on `n`.
pub mod Move
pub mod Copy
pub mod Compare
mod Tests
use os_playground.Base.{
  ℕ, zero, suc, ◌+◌, ◌-◌, ◌*◌, ◌/◌, ◌^◌, ◌%◌, Bool, true, false, not, Option, none, some, ltb, leb,
  ◌==◌, ◌||◌, ◌&&◌, if◌then◌else◌, update,
}

abbrev pub Memory : Type 0
Memory = ℕ → ℕ

-- `rep stosb`
unfoldable pub stosb : ℕ → ℕ → ℕ → Memory → Memory
stosb dst c zero m = m
stosb dst c (suc n) m = stosb (dst + 1) c n (update m dst (c % 256))

-- A 32-bit store, low byte first.
abbrev pub store32 : ℕ → ℕ → Memory → Memory
store32 dst w m =
    update
      (update (update (update m dst (w % 256)) (dst + 1) (w / 2 ^ 8 % 256)) (dst + 2)
        (w / 2 ^ 16 % 256))
      (dst + 3) (w / 2 ^ 24 % 256)

-- `rep stosl`
unfoldable pub stosl : ℕ → ℕ → ℕ → Memory → Memory
stosl dst w zero m = m
stosl dst w (suc n) m = stosl (dst + 4) w n (store32 dst w m)

-- The byte `c` four times: `(c<<24)|(c<<16)|(c<<8)|c`, of which no two bits meet.
abbrev pub fourfold : ℕ → ℕ
fourfold c = c * 2 ^ 24 + c * 2 ^ 16 + c * 2 ^ 8 + c

unfoldable pub memset : ℕ → ℕ → ℕ → Memory → Memory
memset dst c n m =
    if dst % 4 == 0 && n % 4 == 0 then stosl dst (fourfold (c % 256)) (n / 4) m else stosb dst c n m

-- `while(n-- > 0) *d++ = *s++`
unfoldable pub copy_up : ℕ → ℕ → ℕ → Memory → Memory
copy_up s d zero m = m
copy_up s d (suc n) m = copy_up (s + 1) (d + 1) n (update m d (m s))

-- `while(n-- > 0) *--d = *--s`
unfoldable pub copy_down : ℕ → ℕ → ℕ → Memory → Memory
copy_down s d zero m = m
copy_down s d (suc n) m = copy_down (s - 1) (d - 1) n (update m (d - 1) (m (s - 1)))

unfoldable pub memmove : ℕ → ℕ → ℕ → Memory → Memory
memmove dst src n m =
    if ltb src dst && ltb dst (src + n)
    then copy_down (src + n) (dst + n) n m
    else copy_up src dst n m

-- The difference of two bytes as an `int`, which is its bit pattern.
abbrev pub byte_diff : ℕ → ℕ → ℕ
byte_diff a b = (a + 2 ^ 32 - b) % 2 ^ 32

unfoldable pub memcmp : ℕ → ℕ → ℕ → Memory → ℕ
memcmp s1 s2 zero m = 0
memcmp s1 s2 (suc n) m =
    let rest = memcmp (s1 + 1) (s2 + 1) n m in
    if m s1 == m s2 then rest else byte_diff (m s1) (m s2)

unfoldable pub strncmp : ℕ → ℕ → ℕ → Memory → ℕ
strncmp p q zero m = 0
strncmp p q (suc n) m =
    let rest = strncmp (p + 1) (q + 1) n m in
    if not (m p == 0) && m p == m q then rest else byte_diff (m p) (m q)

-- The two loops of `strncpy`: the first ends with the NUL that it has copied.
unfoldable pub strncpy : ℕ → ℕ → ℕ → Memory → Memory
unfolding stosb
strncpy s t zero m = m
strncpy s t (suc n) m =
    let m' = update m s (m t) in
    let rest = strncpy (s + 1) (t + 1) n m' in if m t == 0 then stosb (s + 1) 0 n m' else rest

-- The loop of `safestrcpy` with `n` more bytes than the NUL, and the NUL.
unfoldable pub safe_copy : ℕ → ℕ → ℕ → Memory → Memory
safe_copy s t zero m = update m s 0
safe_copy s t (suc n) m =
    let m' = update m s (m t) in
    let rest = safe_copy (s + 1) (t + 1) n m' in if m t == 0 then update m' (s + 1) 0 else rest

unfoldable pub safestrcpy : ℕ → ℕ → ℕ → Memory → Memory
unfolding safe_copy
safestrcpy s t zero m = m
safestrcpy s t (suc n) m = safe_copy s t n m

-- `strlen` with fuel; `none` if the fuel runs out before the NUL.
unfoldable pub strlen : ℕ → ℕ → ℕ → Memory → Option ℕ
strlen zero s n m = none
strlen (suc fuel) s n m =
    let rest = strlen fuel s (n + 1) m in if m (s + n) == 0 then some n else rest
