-- ===== src/Grep.antt =====
-- The regular expressions of xv6-l/grep.c: `match`, `matchhere` and `matchstar`.
-- A C string is the list of its bytes before the NUL.
pub mod Meaning
mod Tests
use os_playground.Base.{ℕ, Bool, true, false, ◌==◌, ◌||◌, ◌&&◌, if◌then◌else◌, List, [], ◌∷◌}

-- `here` is `matchhere` for the rest of the expression.
unfoldable pub matchstar : (List ℕ → Bool) → ℕ → List ℕ → Bool
matchstar here c [] = here []
matchstar here c (x ∷ text) =
    let more = matchstar here c text in
    if here (x ∷ text) then true else if x == c || c == b'.' then more else false

-- The case of one character, with `matchhere` for the rest of the expression.
abbrev pub matchone : (List ℕ → Bool) → ℕ → List ℕ → Bool
matchone here c [] = false
matchone here c (x ∷ text) = if c == b'.' || c == x then here text else false

abbrev pub is_end : List ℕ → Bool
is_end [] = true
is_end (x ∷ text) = false

unfoldable pub matchhere : List ℕ → List ℕ → Bool
unfolding matchstar
matchhere [] text = true
matchhere (c ∷ []) text = if c == b'$' then is_end text else matchone (matchhere []) c text
matchhere (c ∷ d ∷ re) text =
    let star = matchstar (matchhere re) c text in
    let one = matchone (matchhere (d ∷ re)) c text in if d == b'*' then star else one

-- The loop of `match`, which looks at the empty rest of the text too.
unfoldable pub match_from : List ℕ → List ℕ → Bool
unfolding matchhere
match_from re [] = matchhere re []
match_from re (x ∷ text) =
    let rest = match_from re text in if matchhere re (x ∷ text) then true else rest

unfoldable pub match : List ℕ → List ℕ → Bool
unfolding match_from
match [] text = match_from [] text
match (c ∷ re) text = if c == b'^' then matchhere re text else match_from (c ∷ re) text
