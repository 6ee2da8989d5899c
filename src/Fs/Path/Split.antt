-- ===== src/Fs/Path/Split.antt =====
-- `skipelem` again and again splits a path at its slashes.
use os_playground.Base.{
  ℕ, zero, suc, ◌≤◌, ◌<◌, ◌≡◌, refl, sym, subst, ap, ◌∙◌, false, Option, none, some, List, [], ◌∷◌,
  map, ◌==◌, if◌then◌else◌, take, length, arith, Bool-cases, inl, inr,
}
use os_playground.Fs.Path.{dirsiz, skip_slashes, pass_elem, element, skipelem}

-- The elements of a path: put `c` before the first of the words that begin at it.
abbrev grow : ℕ → List (List ℕ) → List (List ℕ)
grow c [] = (c ∷ []) ∷ []
grow c (w ∷ ws) = (c ∷ w) ∷ ws

abbrev drop_empty : List (List ℕ) → List (List ℕ)
drop_empty [] = []
drop_empty ([] ∷ ws) = drop_empty ws
drop_empty ((c ∷ w) ∷ ws) = (c ∷ w) ∷ drop_empty ws

-- All words between slashes, the empty ones too.
abbrev pub words : List ℕ → List (List ℕ)
words [] = [] ∷ []
words (c ∷ path) = let ws = words path in if c == b'/' then [] ∷ ws else grow c ws

-- The words between slashes that are not empty.
abbrev pub elements : List ℕ → List (List ℕ)
elements path = drop_empty (words path)

-- All names that a loop of `skipelem` sees, on fuel.
abbrev pub follow : (List ℕ → List (List ℕ)) → Option (List ℕ × List ℕ) → List (List ℕ)
follow loop none = []
follow loop (some (name, rest)) = name ∷ loop rest

unfoldable pub names : ℕ → List ℕ → List (List ℕ)
unfolding skipelem
names zero path = []
names (suc fuel) path = follow (names fuel) (skipelem path)

elements_slashes : (path : List ℕ) → elements (skip_slashes path) ≡ elements path
unfolding skip_slashes
elements_slashes [] = refl
elements_slashes (c ∷ path) = elim (Bool-cases (c == b'/')) [
  | inl e ↦ rw e (elements_slashes path)
  | inr e ↦ ap (λ b. elements (if b then skip_slashes path else c ∷ path)) e
]

-- The first word of a path.
words-pass :
    (path : List ℕ)
    → (ws : List (List ℕ)) × (words path ≡ (pass_elem path).0 ∷ ws)
      × (drop_empty ws ≡ elements (pass_elem path).1)
unfolding pass_elem
words-pass [] = ([], refl, refl)
words-pass (c ∷ path) = elim (Bool-cases (c == b'/')) [
  | inl e ↦ rw e (words path, refl, rw e refl)
  | inr e ↦ let r = words-pass path in rw e (r.0, ap (grow c) r.1, r.2)
]

length-skip_slashes : (path : List ℕ) → length (skip_slashes path) ≤ length path
unfolding skip_slashes
length-skip_slashes [] = omega arith
length-skip_slashes (c ∷ path) =
    let h = length-skip_slashes path in
    elim (Bool-cases (c == b'/')) [ inl e ↦ rw e (omega arith) | inr e ↦ rw e (omega arith) ]

length-pass_elem : (path : List ℕ) → length (pass_elem path).1 ≤ length path
unfolding pass_elem
length-pass_elem [] = omega arith
length-pass_elem (c ∷ path) =
    let h = length-pass_elem path in
    elim (Bool-cases (c == b'/')) [ inl e ↦ rw e (omega arith) | inr e ↦ rw e (omega arith) ]

abbrev Begun : List ℕ → Type 0
Begun [] = Unit
Begun (c ∷ path) = (c == b'/') ≡ false

skip_slashes-Begun : (path : List ℕ) → Begun (skip_slashes path)
unfolding skip_slashes
skip_slashes-Begun [] = tt
skip_slashes-Begun (c ∷ path) = elim (Bool-cases (c == b'/')) [
  | inl e ↦ rw e (skip_slashes-Begun path)
  | inr e ↦ subst Begun (sym (ap (λ b. if b then skip_slashes path else c ∷ path) e)) e
]

abbrev Splits : ℕ → Type 0
Splits fuel =
    (path : List ℕ) → length path < fuel → names fuel path ≡ map (take dirsiz) (elements path)

follow-element :
    (fuel : ℕ) (path : List ℕ)
    → Splits fuel
    → Begun path
    → length path ≤ fuel
    → follow (names fuel) (element path) ≡ map (take dirsiz) (elements path)
unfolding skip_slashes pass_elem
follow-element fuel [] again b l = refl
follow-element fuel (c ∷ path) again b l =
    let r = words-pass path in
    let h = length-skip_slashes (pass_elem path).1 in
    let g = length-pass_elem path in
    rw b (
      ap (λ ws. take dirsiz (c ∷ (pass_elem path).0) ∷ ws)
        (again (skip_slashes (pass_elem path).1) (omega arith)
          ∙ ap (map (take dirsiz)) (elements_slashes (pass_elem path).1 ∙ sym r.2))
      ∙ ap (λ ws. map (take dirsiz) (drop_empty (grow c ws))) (sym r.1))

-- With fuel for more than its length, the loop of `namex` sees just the names between the slashes of the
-- path that are not empty, each cut off after DIRSIZ bytes.
pub names_lem :
    (fuel : ℕ) (path : List ℕ)
    → length path < fuel
    → names fuel path ≡ map (take dirsiz) (elements path)
unfolding names skipelem
names_lem zero path l = absurd (omega arith)
names_lem (suc fuel) path l =
    let h = length-skip_slashes path in
    follow-element fuel (skip_slashes path) (names_lem fuel) (skip_slashes-Begun path) (omega arith)
    ∙ ap (map (take dirsiz)) (elements_slashes path)
