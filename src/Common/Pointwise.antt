-- ===== src/Common/Pointwise.antt =====
-- Two lists of one length, related element by element.
use Prim.Native.Nat.{ℕ, zero, suc}
use mathlib.Core.Path.{◌≡◌, subst}
use mathlib.Core.Logic.{inl, inr}
use mathlib.Core.Option.{some}
use mathlib.Core.List.{List, [], ◌∷◌, map}
use workflow_mcp.Common.Lists.{get_elem?, set}
use workflow_mcp.Common.Predicates.{All, Any, Pairwise}

abbrev pub Along {ℓ} : {A : Type ℓ} → (A → A → Type 0) → List A → List A → Type 0
Along R [] [] = Unit {0}
Along R [] (y ∷ ys) = ⊥
Along R (x ∷ xs) [] = ⊥
Along R (x ∷ xs) (y ∷ ys) = R x y × Along R xs ys

module _ {ℓ} {A : Type ℓ} (E : A → A → Type 0) where
  pub Along-refl : ((x : A) → E x x) → (xs : List A) → Along E xs xs
  Along-refl r [] = tt
  Along-refl r (x ∷ xs) = (r x, Along-refl r xs)

  pub Along-trans :
      ((x y z : A) → E x y → E y z → E x z)
      → (xs ys zs : List A) → Along E xs ys
      → Along E ys zs
      → Along E xs zs
  Along-trans t [] [] [] f g = tt
  Along-trans t (x ∷ xs) (y ∷ ys) (z ∷ zs) f g = (t x y z f.0 g.0, Along-trans t xs ys zs f.1 g.1)
  Along-trans t [] (y ∷ ys) zs f g = absurd f
  Along-trans t [] [] (z ∷ zs) f g = absurd g
  Along-trans t (x ∷ xs) [] zs f g = absurd f
  Along-trans t (x ∷ xs) (y ∷ ys) [] f g = absurd g

  pub Along-set :
      ((x : A) → E x x)
      → (xs : List A) (i : ℕ) (x y : A) → get_elem? xs i ≡ some x
      → E x y
      → Along E xs (set xs i y)
  Along-set r [] i x y found e = tt
  Along-set r (w ∷ ws) zero x y found e = (subst (λ u. E u y) (cc) e, Along-refl r ws)
  Along-set r (w ∷ ws) (suc i) x y found e = (r w, Along-set r ws i x y found e)

  pub Along-map : (f : A → A) → ((x : A) → E x (f x)) → (xs : List A) → Along E xs (map f xs)
  Along-map f e [] = tt
  Along-map f e (x ∷ xs) = (e x, Along-map f e xs)

  -- What holds of each element survives, if it survives the relation.
  pub All-Along :
      (P : A → Type 0)
      → ((x y : A) → E x y → P x → P y)
      → (xs ys : List A) → Along E xs ys
      → All P xs
      → All P ys
  All-Along P keep [] [] e h = tt
  All-Along P keep (x ∷ xs) (y ∷ ys) e h = (keep x y e.0 h.0, All-Along P keep xs ys e.1 h.1)
  All-Along P keep [] (y ∷ ys) e h = absurd e
  All-Along P keep (x ∷ xs) [] e h = absurd e

  pub Any-Along :
      (P : A → Type 0)
      → ((x y : A) → E x y → P x → P y)
      → (xs ys : List A) → Along E xs ys
      → Any P xs
      → Any P ys
  Any-Along P keep [] ys e h = absurd h
  Any-Along P keep (x ∷ xs) (y ∷ ys) e (inl h) = inl (keep x y e.0 h)
  Any-Along P keep (x ∷ xs) (y ∷ ys) e (inr h) = inr (Any-Along P keep xs ys e.1 h)
  Any-Along P keep (x ∷ xs) [] e h = absurd e

  pub Pairwise-Along :
      (R : A → A → Type 0)
      → ((x y z w : A) → E x y → E z w → R x z → R y w)
      → (xs ys : List A) → Along E xs ys
      → Pairwise R xs
      → Pairwise R ys
  Pairwise-Along R keep [] [] e h = tt
  Pairwise-Along R keep (x ∷ xs) (y ∷ ys) e h =
      (spread xs ys e.1 h.0, Pairwise-Along R keep xs ys e.1 h.1)
    where
      spread : (zs ws : List A) → Along E zs ws → All (R x) zs → All (R y) ws
      spread [] [] f k = tt
      spread (z ∷ zs) (w ∷ ws) f k = (keep x y z w e.0 f.0 k.0, spread zs ws f.1 k.1)
      spread [] (w ∷ ws) f k = absurd f
      spread (z ∷ zs) [] f k = absurd f
  Pairwise-Along R keep [] (y ∷ ys) e h = absurd e
  Pairwise-Along R keep (x ∷ xs) [] e h = absurd e

  pub Along-flip : (xs ys : List A) → Along E xs ys → Along (λ y x. E x y) ys xs
  Along-flip [] [] h = tt
  Along-flip (x ∷ xs) (y ∷ ys) h = (h.0, Along-flip xs ys h.1)
  Along-flip [] (y ∷ ys) h = absurd h
  Along-flip (x ∷ xs) [] h = absurd h
