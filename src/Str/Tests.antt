-- ===== src/Str/Tests.antt =====
-- Runs of the string operations, and the theorems about them at a concrete memory.
use os_playground.Base.{update, ℕ, ◌+◌, ◌≡◌, ◌<◌, ◌≤◌, ◌⊎◌, refl}
use os_playground.Str.{Memory, memmove, memset, memcmp, strncmp, strncpy, safestrcpy, strlen}
use os_playground.Str.Move.{memmove_lem}

-- The string `abc` at 100.
abbrev text_memory : Memory
text_memory = update (update (update (λ a. 0) 100 b'a') 101 b'b') 102 b'c'

overlap : memmove 101 100 3 text_memory 103 ≡ b'c'
unfolding memmove os_playground.Str.copy_down
overlap = refl

by_words : memset 200 (256 + 7) 8 text_memory 207 ≡ 7
unfolding memset os_playground.Str.stosl
by_words = refl

prefix_equal : strncmp 100 100 2 text_memory ≡ 0
unfolding strncmp
prefix_equal = refl

abc_before_bc : strncmp 100 101 2 text_memory ≡ 4294967295
unfolding strncmp
abc_before_bc = refl

memmove_lem_example :
    ((i : ℕ) → i < 3 → memmove 101 100 3 text_memory (101 + i) ≡ text_memory (100 + i))
    × ((a : ℕ) → (a < 101) ⊎ (101 + 3 ≤ a) → memmove 101 100 3 text_memory a ≡ text_memory a)
memmove_lem_example = memmove_lem 101 100 3 text_memory
