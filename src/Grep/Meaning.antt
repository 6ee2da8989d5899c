-- ===== src/Grep/Meaning.antt =====
-- What an expression means, without the order in which the matcher searches.
use os_playground.Base.{
  ℕ, ◌≡◌, ◌↔◌, ◌⊎◌, inl, inr, refl, ap, Bool, true, ◌==◌, if◌then◌else◌, List, [], ◌∷◌, ◌++◌, All,
  arith, Bool-cases,
}
use os_playground.Grep.{matchstar, matchone, is_end, matchhere, match_from, match}

pub data Item : Type 0 where
  one : ℕ → Item
  star : ℕ → Item
  at_end : Item

-- A character before `*` repeats, `$` at the end stands for the end of the text.
pub parse : List ℕ → List Item
parse [] = []
parse (c ∷ []) = if c == b'$' then at_end ∷ [] else one c ∷ []
parse (c ∷ d ∷ re) =
    let repeated = star c ∷ parse re in
    let single = one c ∷ parse (d ∷ re) in if d == b'*' then repeated else single

-- `.` stands for every character.
abbrev pub Accepts : ℕ → ℕ → Type 0
Accepts c x = (x ≡ c) ⊎ (c ≡ b'.')

-- A text that begins with a match of the items.
abbrev pub Begins : List Item → List ℕ → Type 0
Begins [] text = Unit
Begins (one c ∷ items) [] = ⊥
Begins (one c ∷ items) (x ∷ text) = Accepts c x × Begins items text
Begins (star c ∷ items) text =
    (run : List ℕ) × (rest : List ℕ) × (text ≡ run ++ rest)
    × All (Accepts c) run
    × Begins items rest
Begins (at_end ∷ items) text = (text ≡ []) × Begins items text

module _ (here : List ℕ → Bool) (items : List Item)
    (same : (text : List ℕ) → (here text ≡ true) ↔ Begins items text) (c : ℕ) where
  matchstar_sound : (text : List ℕ) → matchstar here c text ≡ true → Begins (star c ∷ items) text
  unfolding matchstar
  matchstar_sound [] e = ([], [], refl, tt, (same []).0 e)
  matchstar_sound (x ∷ text) e = elim (Bool-cases (here (x ∷ text))) [
    | inl now ↦ ([], x ∷ text, refl, tt, (same (x ∷ text)).0 now)
    | inr later ↦
        let (run, rest, eq, all, b) = matchstar_sound text (ground arith) in
        (x ∷ run, rest, ap (λ r. x ∷ r) eq, (ground arith, all), b)
  ]

  matchstar_complete :
      (run rest : List ℕ)
      → All (Accepts c) run
      → Begins items rest
      → matchstar here c (run ++ rest) ≡ true
  unfolding matchstar
  matchstar_complete [] [] a b = (same []).1 b
  matchstar_complete [] (x ∷ rest) a b = rw ((same (x ∷ rest)).1 b)
  matchstar_complete (x ∷ run) rest a b = ground (arith, a.0, matchstar_complete run rest a.1 b)

  matchstar_iff : (text : List ℕ) → (matchstar here c text ≡ true) ↔ Begins (star c ∷ items) text
  matchstar_iff text = (
    matchstar_sound text,
    λ m. let (run, rest, e, a, b) = m in rw e (matchstar_complete run rest a b),
  )

  matchone_iff : (text : List ℕ) → (matchone here c text ≡ true) ↔ Begins (one c ∷ items) text
  matchone_iff [] = (λ e. cc, λ m. absurd m)
  matchone_iff (x ∷ text) = (
    λ e. (ground arith, (same text).0 (ground arith)),
    λ m. ground (arith, m.0, (same text).1 m.1),
  )

is_end_iff : (text : List ℕ) → (is_end text ≡ true) ↔ Begins (at_end ∷ []) text
is_end_iff [] = (λ e. (refl, tt), λ m. refl)
is_end_iff (x ∷ text) = (λ e. absurd (cc), λ m. cc (m.0))

-- `matchhere` answers true exactly if the text begins with a match of the expression.
pub matchhere_iff : (re text : List ℕ) → (matchhere re text ≡ true) ↔ Begins (parse re) text
unfolding matchhere parse
matchhere_iff [] text = (λ e. tt, λ m. refl)
matchhere_iff (c ∷ []) text = elim (Bool-cases (c == b'$')) [
  | inl dollar ↦ rw dollar (is_end_iff text)
  | inr plain ↦ rw plain (matchone_iff (matchhere []) [] (matchhere_iff []) c text)
]
matchhere_iff (c ∷ d ∷ re) text = elim (Bool-cases (d == b'*')) [
  | inl repeats ↦ rw repeats (matchstar_iff (matchhere re) (parse re) (matchhere_iff re) c text)
  | inr single ↦
      rw single (matchone_iff (matchhere (d ∷ re)) (parse (d ∷ re)) (matchhere_iff (d ∷ re)) c text)
]

-- A text that contains a match of the expression, at its beginning if the expression begins with `^`.
abbrev pub Contains : List Item → List ℕ → Type 0
Contains items text =
    (before : List ℕ) × (after : List ℕ) × (text ≡ before ++ after) × Begins items after

abbrev pub Matches : List ℕ → List ℕ → Type 0
Matches [] text = Contains (parse []) text
Matches (c ∷ re) text = if c == b'^' then Begins (parse re) text else Contains (parse (c ∷ re)) text

match_from_sound : (re text : List ℕ) → match_from re text ≡ true → Contains (parse re) text
unfolding match_from
match_from_sound re [] e = ([], [], refl, (matchhere_iff re []).0 e)
match_from_sound re (x ∷ text) e = elim (Bool-cases (matchhere re (x ∷ text))) [
  | inl now ↦ ([], x ∷ text, refl, (matchhere_iff re (x ∷ text)).0 now)
  | inr later ↦
      let (before, after, eq, b) = match_from_sound re text (ground arith) in
      (x ∷ before, after, ap (λ r. x ∷ r) eq, b)
]

match_from_complete :
    (re before after : List ℕ) → Begins (parse re) after → match_from re (before ++ after) ≡ true
unfolding match_from
match_from_complete re [] [] b = (matchhere_iff re []).1 b
match_from_complete re [] (x ∷ after) b = rw ((matchhere_iff re (x ∷ after)).1 b)
match_from_complete re (x ∷ before) after b = ground (arith, match_from_complete re before after b)

match_from_iff : (re text : List ℕ) → (match_from re text ≡ true) ↔ Contains (parse re) text
match_from_iff re text = (
  match_from_sound re text,
  λ m. let (before, after, e, b) = m in rw e (match_from_complete re before after b),
)

-- `match` answers true exactly if the text contains a match of the expression: anywhere, or at its
-- beginning if the expression begins with `^`.
pub match_iff : (re text : List ℕ) → (match re text ≡ true) ↔ Matches re text
unfolding match
match_iff [] text = match_from_iff [] text
match_iff (c ∷ re) text = elim (Bool-cases (c == b'^')) [
  | inl anchored ↦ rw anchored (matchhere_iff re text)
  | inr free ↦ rw free (match_from_iff (c ∷ re) text)
]
