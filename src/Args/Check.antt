-- ===== src/Args/Check.antt =====
-- What the checks of arguments promise the system calls.
use os_playground.Base.{
  ℕ, zero, suc, ◌+◌, ◌-◌, ◌^◌, ◌%◌, ◌≤◌, ◌<◌, ◌≡◌, ◌≢◌, ◌⊎◌, inl, inr, refl, sym, ap, ◌∙◌, Option,
  none, some, ltb, leb, ◌||◌, arith, ==_ne, Bool-cases, ℕ_discrete,
}
use os_playground.Args.{Memory, find_nul, fetchstr, argint, check_block, argptr}

-- What `fetchstr` finds in a process of size `sz`: a string that ends inside of the process, or that
-- none does.
pub data Fetched (sz addr : ℕ) (m : Memory) : Option ℕ → Type 0 where
  string :
      (n : ℕ)
      → addr + n < sz
      → m (addr + n) ≡ 0
      → ((i : ℕ) → i < n → m (addr + i) ≢ 0)
      → Fetched sz addr m (some n)
  unended : ((i : ℕ) → addr + i < sz → m (addr + i) ≢ 0) → Fetched sz addr m none

find_nul-Fetched :
    (sz addr n r : ℕ) (m : Memory)
    → addr + n + r ≡ sz
    → ((i : ℕ) → i < n → m (addr + i) ≢ 0)
    → Fetched sz addr m (find_nul m addr n r)
unfolding find_nul
find_nul-Fetched sz addr n zero m e before = unended (λ i l. before i (omega arith))
find_nul-Fetched sz addr n (suc r) m e before = elim (ℕ_discrete (m (addr + n)) 0) [
  | yes z ↦ rw z (string n (omega arith) z before)
  | no ne ↦ rw (==_ne (m (addr + n)) 0 ne) (
      find_nul-Fetched sz addr (n + 1) r m (omega arith) (λ i l. elim (ℕ_discrete i n) [
        | yes q ↦ λ z. ne (ap (λ j. m (addr + j)) (sym q) ∙ z)
        | no other ↦ before i (omega arith)
      ]))
]

-- `fetchstr` returns the length of the string if it ends inside of the process, and -1 exactly if the
-- process has no NUL from the address on.
pub fetchstr_lem : (sz addr : ℕ) (m : Memory) → Fetched sz addr m (fetchstr sz m addr)
unfolding fetchstr
fetchstr_lem sz addr m = elim (Bool-cases (leb sz addr)) [
  | inl out ↦ rw out (unended (λ i l. absurd (ground arith)))
  | inr within ↦
      rw within
        (find_nul-Fetched sz addr 0 (sz - addr) m (ground arith) (λ i l. absurd (omega arith)))
]

-- What `argptr` returns: an address with `size` bytes that lie inside of the process, or -1.
pub data Block (sz size : ℕ) (argument : Option ℕ) : Option ℕ → Type 0 where
  inside : (i : ℕ) → argument ≡ some i → i < sz → i + size ≤ sz → Block sz size argument (some i)
  no_argument : argument ≡ none → Block sz size argument none
  outside :
      (i : ℕ)
      → argument ≡ some i
      → (2 ^ 31 ≤ size) ⊎ ((sz ≤ i) ⊎ (sz < i + size))
      → Block sz size argument none

check_block-Block :
    (sz size : ℕ) (o : Option ℕ) → sz ≤ 2 ^ 31 → Block sz size o (check_block sz size o)
check_block-Block sz size none l = no_argument refl
check_block-Block sz size (some i) l =
    elim (Bool-cases (leb (2 ^ 31) size || leb sz i || ltb sz ((i + size) % 2 ^ 32))) [
      | inl out ↦ rw out (
          outside i refl (elim (Bool-cases (leb (2 ^ 31) size)) [
            | inl big ↦ inl (ground arith)
            | inr small ↦ inr (elim (Bool-cases (leb sz i)) [
              | inl far ↦ inl (ground arith)
              | inr near ↦ inr (ground arith)
            ])
          ]))
      | inr within ↦ rw within (inside i refl (ground arith) (ground arith))
    ]

-- In a process of at most 2 ^ 31 bytes, `argptr` returns the argument if all `size` bytes from there on
-- lie inside of the process and `size` is not negative, although the sum is computed modulo 2 ^ 32, and
-- -1 otherwise.
pub argptr_lem :
    (sz esp n size : ℕ) (m : Memory)
    → sz ≤ 2 ^ 31
    → Block sz size (argint sz esp m n) (argptr sz esp m n size)
unfolding argptr
argptr_lem sz esp n size m l = check_block-Block sz size (argint sz esp m n) l
