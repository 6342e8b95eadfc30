-- ===== src/Common/Updating.antt =====
-- The first element of a list that passes a test, changed in place.
use mathlib.Core.Path.{◌≡◌, refl}
use mathlib.Core.Logic.{inl, inr}
use mathlib.Core.Bool.{Bool, false}
use mathlib.Core.List.{List, [], ◌∷◌, ◌++◌}
use native.Mathlib.Omega.{arith}
use workflow_mcp.Common.Tests.{if◌then◌else◌, Bool-cases}
use workflow_mcp.Common.Predicates.{All}

module _ {ℓ} {A : Type ℓ} where
  unfoldable pub update_first : (A → Bool) → (A → A) → List A → List A
  update_first p f [] = []
  update_first p f (x ∷ xs) = let later = update_first p f xs in if p x then f x ∷ xs else x ∷ later

  -- The update passes a list none of whose elements is meant.
  pub update_first-skip :
      (p : A → Bool) (f : A → A) (xs ys : List A)
      → All (λ x. p x ≡ false) xs
      → update_first p f (xs ++ ys) ≡ xs ++ update_first p f ys
  unfolding update_first
  update_first-skip p f [] ys h = refl
  update_first-skip p f (x ∷ xs) ys h = ground (arith, h.0, update_first-skip p f xs ys h.1)

  pub All-update_first :
      (P : A → Type 0) (p : A → Bool) (f : A → A)
      → ((x : A) → P x → P (f x))
      → (xs : List A) → All P xs
      → All P (update_first p f xs)
  unfolding update_first
  All-update_first P p f g [] h = tt
  All-update_first P p f g (x ∷ xs) h = elim (Bool-cases (p x)) [
    | inl hit ↦ rw hit (g x h.0, h.1)
    | inr miss ↦ rw miss (h.0, All-update_first P p f g xs h.1)
  ]
