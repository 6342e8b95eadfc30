-- ===== src/Common/Filters.antt =====
-- Indexing a list, and filtering it, under the predicates on its elements.
use Prim.Native.Nat.{ℕ, zero, suc, ◌<◌}
use mathlib.Core.Path.{◌≡◌, refl, ap}
use mathlib.Core.Logic.{◌≢◌, inl, inr}
use mathlib.Core.Bool.{Bool, true}
use mathlib.Core.List.{List, [], ◌∷◌}
use mathlib.Core.Option.{some}
use native.Mathlib.Omega.{arith}
use workflow_mcp.Common.Tests.{Bool-cases}
use workflow_mcp.Common.Lists.{length, get_elem?, filter}
use workflow_mcp.Common.Predicates.{All, Any, Pairwise, All-get_elem?}

module _ {ℓ} {A : Type ℓ} where
  pub get_elem?-lt : (xs : List A) (i : ℕ) → i < length xs → (x : A) × (get_elem? xs i ≡ some x)
  get_elem?-lt [] i h = elim h [ ]
  get_elem?-lt (x ∷ xs) zero h = (x, refl)
  get_elem?-lt (x ∷ xs) (suc i) h = get_elem?-lt xs i (omega arith)

  pub Any-filter :
      (P : A → Type 0) (p : A → Bool) (xs : List A)
      → Any P (filter p xs)
      → Any (λ x. P x × (p x ≡ true)) xs
  Any-filter P p [] h = h
  Any-filter P p (x ∷ xs) h = elim (Bool-cases (p x)) [
    | inl kept ↦ elim (rw kept at h) [ inl q ↦ inl (q, kept) | inr q ↦ inr (Any-filter P p xs q) ]
    | inr gone ↦ inr (Any-filter P p xs (rw gone at h))
  ]

  pub Any-filter_of :
      (P : A → Type 0) (p : A → Bool) (xs : List A)
      → Any (λ x. P x × (p x ≡ true)) xs
      → Any P (filter p xs)
  Any-filter_of P p [] h = h
  Any-filter_of P p (x ∷ xs) (inl h) = rw h.1 (inl h.0)
  Any-filter_of P p (x ∷ xs) (inr h) = elim (Bool-cases (p x)) [
    | inl kept ↦ rw kept (inr (Any-filter_of P p xs h))
    | inr gone ↦ rw gone (Any-filter_of P p xs h)
  ]

  pub All-filter : (P : A → Type 0) (p : A → Bool) (xs : List A) → All P xs → All P (filter p xs)
  All-filter P p [] h = tt
  All-filter P p (x ∷ xs) h = elim (Bool-cases (p x)) [
    | inl kept ↦ rw kept (h.0, All-filter P p xs h.1)
    | inr gone ↦ rw gone (All-filter P p xs h.1)
  ]

  pub All-filter_test : (p : A → Bool) (xs : List A) → All (λ x. p x ≡ true) (filter p xs)
  All-filter_test p [] = tt
  All-filter_test p (x ∷ xs) = elim (Bool-cases (p x)) [
    | inl kept ↦ rw kept (kept, All-filter_test p xs)
    | inr gone ↦ rw gone (All-filter_test p xs)
  ]

  pub Pairwise-filter :
      (R : A → A → Type 0) (p : A → Bool) (xs : List A) → Pairwise R xs → Pairwise R (filter p xs)
  Pairwise-filter R p [] h = tt
  Pairwise-filter R p (x ∷ xs) h = elim (Bool-cases (p x)) [
    | inl kept ↦ rw kept (All-filter (R x) p xs h.0, Pairwise-filter R p xs h.1)
    | inr gone ↦ rw gone (Pairwise-filter R p xs h.1)
  ]

module _ {A : Type 0} where
  -- In a list with no repetition an element stands at one index.
  pub get_elem?-injective :
      (xs : List A) (i j : ℕ) (x : A)
      → Pairwise (λ a b. a ≢ b) xs
      → get_elem? xs i ≡ some x
      → get_elem? xs j ≡ some x
      → i ≡ j
  get_elem?-injective [] i j x d e f = cc
  get_elem?-injective (y ∷ ys) zero zero x d e f = refl
  get_elem?-injective (y ∷ ys) zero (suc j) x d e f =
      absurd (All-get_elem? (λ b. y ≢ b) ys j d.0 f (cc))
  get_elem?-injective (y ∷ ys) (suc i) zero x d e f =
      absurd (All-get_elem? (λ b. y ≢ b) ys i d.0 e (cc))
  get_elem?-injective (y ∷ ys) (suc i) (suc j) x d e f =
      ap suc (get_elem?-injective ys i j x d.1 e f)
