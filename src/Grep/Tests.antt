-- ===== src/Grep/Tests.antt =====
-- Runs of the matcher, and the theorem about it at a concrete text.
use os_playground.Base.{ℕ, ◌≡◌, ◌↔◌, refl, true, false, List, [], ◌∷◌}
use os_playground.Grep.{match}
use os_playground.Grep.Meaning.{Matches, match_iff}

-- a.*c$
abbrev pattern_text : List ℕ
pattern_text = b'a' ∷ b'.' ∷ b'*' ∷ b'c' ∷ b'$' ∷ []

matches_end : match pattern_text (b'x' ∷ b'a' ∷ b'c' ∷ b'b' ∷ b'c' ∷ []) ≡ true
unfolding match
matches_end = refl

stops_at_end : match pattern_text (b'a' ∷ b'c' ∷ b'b' ∷ []) ≡ false
unfolding match
stops_at_end = refl

match_iff_example :
    (match pattern_text (b'a' ∷ b'c' ∷ []) ≡ true) ↔ Matches pattern_text (b'a' ∷ b'c' ∷ [])
match_iff_example = match_iff pattern_text (b'a' ∷ b'c' ∷ [])
