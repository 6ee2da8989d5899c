-- ===== src/Fs/Path.antt =====
-- Paths: `skipelem` of xv6-l/fs.c, and the loop around it in `namex`.
-- A path is the list of its bytes before the NUL. The buffer `name` of DIRSIZ bytes is the bytes before its
-- NUL, or all of them; `namecmp` reads no others.
pub mod Split
use os_playground.Base.{
  ℕ, zero, suc, Bool, true, false, Option, none, some, List, [], ◌∷◌, ◌==◌, if◌then◌else◌, take,
  length,
}

abbrev pub dirsiz : ℕ
dirsiz = 14

-- `while(*path == '/') path++`
unfoldable pub skip_slashes : List ℕ → List ℕ
skip_slashes [] = []
skip_slashes (c ∷ path) = let rest = skip_slashes path in if c == b'/' then rest else c ∷ path

-- `while(*path != '/' && *path != 0) path++`: the bytes passed, and what is left.
unfoldable pub pass_elem : List ℕ → List ℕ × List ℕ
pass_elem [] = ([], [])
pass_elem (c ∷ path) =
    let rest = pass_elem path in if c == b'/' then ([], c ∷ path) else (c ∷ rest.0, rest.1)

abbrev pub element : List ℕ → Option (List ℕ × List ℕ)
element [] = none
element (c ∷ path) = let e = pass_elem (c ∷ path) in some (take dirsiz e.0, skip_slashes e.1)

-- The name and the rest of the path, or `none` if there is no name.
unfoldable pub skipelem : List ℕ → Option (List ℕ × List ℕ)
unfolding skip_slashes pass_elem
skipelem path = element (skip_slashes path)
