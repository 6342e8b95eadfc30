-- ===== src/Common/Predicates.antt =====
-- Predicates on the elements of a list, by recursion, and the lemmas on them.
use Prim.Native.Nat.{ℕ, zero, suc}
use mathlib.Core.Path.{◌≡◌, subst}
use mathlib.Core.Logic.{◌⊎◌, inl, inr}
use mathlib.Core.Bool.{Bool, true, false}
use mathlib.Core.List.{List, [], ◌∷◌, ◌++◌, map}
use mathlib.Core.Option.{some}
use native.Mathlib.Omega.{arith}
use workflow_mcp.Common.Lists.{get_elem?, set, any}

-- Every element satisfies `P`; some element does; every two, in the order of the list, are related.
abbrev pub All {ℓ} : {A : Type ℓ} → (A → Type 0) → List A → Type 0
All P [] = Unit {0}
All P (x ∷ xs) = P x × All P xs

abbrev pub Any {ℓ} : {A : Type ℓ} → (A → Type 0) → List A → Type 0
Any P [] = ⊥
Any P (x ∷ xs) = P x ⊎ Any P xs

abbrev pub Pairwise {ℓ} : {A : Type ℓ} → (A → A → Type 0) → List A → Type 0
Pairwise R [] = Unit {0}
Pairwise R (x ∷ xs) = All (R x) xs × Pairwise R xs

module _ {ℓ} {A : Type ℓ} where
  pub All-map : {P Q : A → Type 0} → ((x : A) → P x → Q x) → (xs : List A) → All P xs → All Q xs
  All-map f [] h = tt
  All-map f (x ∷ xs) h = (f x h.0, All-map f xs h.1)

  pub All-append : (P : A → Type 0) (xs ys : List A) → All P xs → All P ys → All P (xs ++ ys)
  All-append P [] ys hx hy = hy
  All-append P (x ∷ xs) ys hx hy = (hx.0, All-append P xs ys hx.1 hy)

  pub All-set : (P : A → Type 0) (xs : List A) (i : ℕ) (v : A) → All P xs → P v → All P (set xs i v)
  All-set P [] i v h hv = tt
  All-set P (x ∷ xs) zero v h hv = (hv, h.1)
  All-set P (x ∷ xs) (suc i) v h hv = (h.0, All-set P xs i v h.1 hv)

  pub All-get_elem? :
      (P : A → Type 0) (xs : List A) (i : ℕ) {v : A} → All P xs → get_elem? xs i ≡ some v → P v
  All-get_elem? P [] i h e = cc
  All-get_elem? P (x ∷ xs) zero h e = subst P (cc) h.0
  All-get_elem? P (x ∷ xs) (suc i) h e = All-get_elem? P xs i h.1 e

  pub Any-get_elem? :
      (P : A → Type 0) (xs : List A) (i : ℕ) {v : A} → get_elem? xs i ≡ some v → P v → Any P xs
  Any-get_elem? P [] i e h = cc
  Any-get_elem? P (x ∷ xs) zero e h = inl (subst P (cc) h)
  Any-get_elem? P (x ∷ xs) (suc i) e h = inr (Any-get_elem? P xs i e h)

  pub Any-map : {P Q : A → Type 0} → ((x : A) → P x → Q x) → (xs : List A) → Any P xs → Any Q xs
  Any-map f [] h = h
  Any-map f (x ∷ xs) (inl h) = inl (f x h)
  Any-map f (x ∷ xs) (inr h) = inr (Any-map f xs h)

  pub not-Any-of-All :
      {P : A → Type 0} {Q : A → Type 0}
      → ((x : A) → P x → Q x → ⊥)
      → (xs : List A) → All P xs
      → Any Q xs
      → ⊥
  not-Any-of-All f (x ∷ xs) h (inl q) = f x h.0 q
  not-Any-of-All f (x ∷ xs) h (inr q) = not-Any-of-All f xs h.1 q
  not-Any-of-All f [] h q = q

  pub Pairwise-append_one :
      (R : A → A → Type 0) (xs : List A) (x : A)
      → Pairwise R xs
      → All (λ y. R y x) xs
      → Pairwise R (xs ++ x ∷ [])
  Pairwise-append_one R [] x h k = (tt, tt)
  Pairwise-append_one R (y ∷ ys) x h k =
      (All-append (R y) ys (x ∷ []) h.0 (k.0, tt), Pairwise-append_one R ys x h.1 k.1)

  -- Replacing an element by one with the same relations keeps the list pairwise related.
  pub Pairwise-set :
      (R : A → A → Type 0) (xs : List A) (i : ℕ) (x y : A)
      → get_elem? xs i ≡ some x
      → ((z : A) → R x z → R y z)
      → ((z : A) → R z x → R z y)
      → Pairwise R xs
      → Pairwise R (set xs i y)
  Pairwise-set R [] i x y e f g h = tt
  Pairwise-set R (w ∷ xs) zero x y e f g h =
      (All-map (λ z r. f z (subst (λ u. R u z) (cc) r)) xs h.0, h.1)
  Pairwise-set R (w ∷ xs) (suc i) x y e f g h = (
    All-set (R w) xs i y h.0 (g w (All-get_elem? (R w) xs i h.0 e)),
    Pairwise-set R xs i x y e f g h.1,
  )

  pub any-false : (p : A → Bool) (xs : List A) → any p xs ≡ false → All (λ x. p x ≡ false) xs
  any-false p [] h = tt
  any-false p (x ∷ xs) h = (ground arith, any-false p xs (ground arith))

  pub any-true : (p : A → Bool) (xs : List A) → any p xs ≡ true → Any (λ x. p x ≡ true) xs
  any-true p [] h = cc
  any-true p (x ∷ xs) h = ground (arith, any-true p xs)

  pub any_of_Any : (p : A → Bool) (xs : List A) → Any (λ x. p x ≡ true) xs → any p xs ≡ true
  any_of_Any p [] h = absurd h
  any_of_Any p (x ∷ xs) (inl h) = rw h
  any_of_Any p (x ∷ xs) (inr h) = ground (arith, any_of_Any p xs h)

  pub Pairwise-map :
      (R : A → A → Type 0) (f : A → A)
      → ((x y : A) → R x y → R (f x) (f y))
      → (xs : List A) → Pairwise R xs
      → Pairwise R (map f xs)
  Pairwise-map R f g [] h = tt
  Pairwise-map R f g (x ∷ xs) h = (spread xs h.0, Pairwise-map R f g xs h.1)
    where
      spread : (ys : List A) → All (R x) ys → All (R (f x)) (map f ys)
      spread [] k = tt
      spread (y ∷ ys) k = (g x y k.0, spread ys k.1)

  pub All-map_same :
      (P : A → Type 0) (f : A → A)
      → ((x : A) → P x → P (f x))
      → (xs : List A) → All P xs
      → All P (map f xs)
  All-map_same P f g [] h = tt
  All-map_same P f g (x ∷ xs) h = (g x h.0, All-map_same P f g xs h.1)

  pub Any-append_left : (P : A → Type 0) (xs ys : List A) → Any P xs → Any P (xs ++ ys)
  Any-append_left P (x ∷ xs) ys (inl h) = inl h
  Any-append_left P (x ∷ xs) ys (inr h) = inr (Any-append_left P xs ys h)
  Any-append_left P [] ys h = absurd h

  pub Any-append_right : (P : A → Type 0) (xs ys : List A) → Any P ys → Any P (xs ++ ys)
  Any-append_right P [] ys h = h
  Any-append_right P (x ∷ xs) ys h = inr (Any-append_right P xs ys h)

  pub Pairwise-weaken :
      (R S : A → A → Type 0)
      → ((x y : A) → R x y → S x y)
      → (xs : List A) → Pairwise R xs
      → Pairwise S xs
  Pairwise-weaken R S f [] h = tt
  Pairwise-weaken R S f (x ∷ xs) h = (All-map (f x) xs h.0, Pairwise-weaken R S f xs h.1)

  pub All-intro : {P : A → Type 0} → ((x : A) → P x) → (xs : List A) → All P xs
  All-intro f [] = tt
  All-intro f (x ∷ xs) = (f x, All-intro f xs)
