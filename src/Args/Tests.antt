-- ===== src/Args/Tests.antt =====
-- The theorems about arguments of system calls at a small process.
use os_playground.Base.{◌≡◌, refl, some, update, arith}
use os_playground.Args.{Memory, fetchstr, argint, argptr}
use os_playground.Args.Check.{Fetched, Block, fetchstr_lem, argptr_lem}

-- The first argument, at 20, is the address 40 of the string `hi`.
abbrev stack : Memory
stack = update (update (update (λ a. 0) 20 40) 40 b'h') 41 b'i'

hi_length : fetchstr 64 stack 40 ≡ some 2
unfolding fetchstr
hi_length = refl

fetchstr_lem_example : Fetched 64 40 stack (fetchstr 64 stack 40)
fetchstr_lem_example = fetchstr_lem 64 40 stack

argptr_lem_example : Block 64 24 (argint 64 16 stack 0) (argptr 64 16 stack 0 24)
argptr_lem_example = argptr_lem 64 16 0 24 stack (omega arith)
