-- ===== src/Proc/Queue/Walk.antt =====
-- Following links: what a write to one link changes, and what it does not.
use os_playground.Base.{
  ℕ, zero, suc, ◌≡◌, refl, sym, ap, subst, ◌∙◌, ◌≢◌, [], ◌∷◌, ◌++◌, update, update_self, update_ne,
  length, NotIn, Distinct, All,
}
use os_playground.Proc.Queue.{walk}

pub length-walk : (next : ℕ → ℕ) (h n : ℕ) → length (walk next h n) ≡ n
length-walk next h zero = refl
length-walk next h (suc n) = ap suc (length-walk next (next h) n)

-- A link that the walk does not follow may change.
pub walk-update :
    (next : ℕ → ℕ) (i v h n : ℕ)
    → NotIn i (walk next h n)
    → walk (update next i v) h n ≡ walk next h n
walk-update next i v h zero k = refl
walk-update next i v h (suc n) k =
    ap (λ r. h ∷ r)
      (rw (update_ne next i h v (λ e. k.0 (rw e refl))) (walk-update next i v (next h) n k.1))

-- The last process of a walk of `suc n` steps.
abbrev pub final : (ℕ → ℕ) → ℕ → ℕ → ℕ
final next h zero = h
final next h (suc n) = final next (next h) n

pub NotIn-final : (next : ℕ → ℕ) (x h n : ℕ) → NotIn x (walk next h (suc n)) → x ≢ final next h n
NotIn-final next x h zero k = k.0
NotIn-final next x h (suc n) k = NotIn-final next x (next h) n k.1

-- What holds of all members holds of the last one.
pub All-final {ℓ} :
    (P : ℕ → Type ℓ) (next : ℕ → ℕ) (h n : ℕ) → All P (walk next h (suc n)) → P (final next h n)
All-final P next h zero k = k.0
All-final P next h (suc n) k = All-final P next (next h) n k.1

-- Linking the last process to `np` appends `np`.
pub walk-snoc :
    (next : ℕ → ℕ) (np h n : ℕ)
    → Distinct (walk next h (suc n))
    → walk (update next (final next h n) np) h (suc (suc n)) ≡ walk next h (suc n) ++ np ∷ []
walk-snoc next np h zero d = rw (update_self next h np)
walk-snoc next np h (suc n) d =
    ap (λ r. h ∷ r)
      (rw (update_ne next (final next (next h) n) h np (NotIn-final next h (next h) n d.0))
        (walk-snoc next np (next h) n d.1))

pub final-update :
    (next : ℕ → ℕ) (i v h n : ℕ)
    → NotIn i (walk next h (suc n))
    → final (update next i v) h n ≡ final next h n
final-update next i v h zero k = refl
final-update next i v h (suc n) k =
    rw (update_ne next i h v (λ e. k.0 (rw e refl))) (final-update next i v (next h) n k.1)

pub final-snoc :
    (next : ℕ → ℕ) (np h n : ℕ)
    → Distinct (walk next h (suc n))
    → final (update next (final next h n) np) h (suc n) ≡ np
final-snoc next np h zero d = update_self next h np
final-snoc next np h (suc n) d =
    rw (update_ne next (final next (next h) n) h np (NotIn-final next h (next h) n d.0))
      (final-snoc next np (next h) n d.1)

-- Two links that the walk does not follow may change.
pub walk-update_two :
    (next : ℕ → ℕ) (i v j w h n : ℕ)
    → NotIn i (walk next h n)
    → NotIn j (walk next h n)
    → walk (update (update next i v) j w) h n ≡ walk next h n
walk-update_two next i v j w h n a b =
    walk-update (update next i v) j w h n (subst (NotIn j) (sym (walk-update next i v h n a)) b)
    ∙ walk-update next i v h n a

pub final-update_two :
    (next : ℕ → ℕ) (i v j w h n : ℕ)
    → NotIn i (walk next h (suc n))
    → NotIn j (walk next h (suc n))
    → final (update (update next i v) j w) h n ≡ final next h n
final-update_two next i v j w h n a b =
    final-update (update next i v) j w h n
      (subst (NotIn j) (sym (walk-update next i v h (suc n) a)) b)
    ∙ final-update next i v h n a

-- Linking the last process, after a write to a link that is not followed, appends `np`.
pub walk-snoc_update :
    (next : ℕ → ℕ) (np v h n la : ℕ)
    → NotIn np (walk next h (suc n))
    → Distinct (walk next h (suc n))
    → la ≡ final next h n
    → walk (update (update next np v) la np) h (suc (suc n)) ≡ walk next h (suc n) ++ np ∷ []
walk-snoc_update next np v h n la a d e =
    subst
      (λ z. walk (update (update next np v) z np) h (suc (suc n)) ≡ walk next h (suc n) ++ np ∷ [])
      (final-update next np v h n a ∙ sym e)
      (walk-snoc (update next np v) np h n
          (subst Distinct (sym (walk-update next np v h (suc n) a)) d)
        ∙ ap (λ r. r ++ np ∷ []) (walk-update next np v h (suc n) a))

pub final-snoc_update :
    (next : ℕ → ℕ) (np v h n la : ℕ)
    → NotIn np (walk next h (suc n))
    → Distinct (walk next h (suc n))
    → la ≡ final next h n
    → final (update (update next np v) la np) h (suc n) ≡ np
final-snoc_update next np v h n la a d e =
    subst (λ z. final (update (update next np v) z np) h (suc n) ≡ np)
      (final-update next np v h n a ∙ sym e)
      (final-snoc (update next np v) np h n
        (subst Distinct (sym (walk-update next np v h (suc n) a)) d))

pub walk_cong : {f g : ℕ → ℕ} {h k n m : ℕ} → f ≡ g → h ≡ k → n ≡ m → walk f h n ≡ walk g k m
walk_cong p q r = λ i. walk (p i) (q i) (r i)

pub final_cong : {f g : ℕ → ℕ} {h k : ℕ} (n : ℕ) → f ≡ g → h ≡ k → final f h n ≡ final g k n
final_cong n p q = λ i. final (p i) (q i) n
