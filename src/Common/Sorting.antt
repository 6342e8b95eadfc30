-- ===== src/Common/Sorting.antt =====
-- How a stable sort by a numeric key goes with `filter` and `map`.
use Prim.Native.Nat.{ℕ, ◌≤◌}
use mathlib.Core.Path.{◌≡◌, refl, ap, sym, ◌∙◌}
use mathlib.Core.Logic.{inl, inr}
use mathlib.Core.Bool.{Bool, true, false}
use mathlib.Core.List.{List, [], ◌∷◌, map}
use native.Mathlib.Omega.{arith}
use workflow_mcp.Common.Tests.{leb, Bool-cases}
use workflow_mcp.Common.Lists.{filter}
use workflow_mcp.Common.Predicates.{All, All-map, Pairwise}
use workflow_mcp.Common.Order.{insert_by, sort_by, All-sort_by}

module _ {ℓ} {A : Type ℓ} (key : A → ℕ) where
  abbrev pub Sorted : List A → Type 0
  Sorted = Pairwise λ x y. key x ≤ key y

  All-insert : (P : A → Type 0) (x : A) (ys : List A) → P x → All P ys → All P (insert_by key x ys)
  unfolding insert_by
  All-insert P x [] hx h = (hx, tt)
  All-insert P x (y ∷ ys) hx h = ground (arith, All-insert P x ys hx)

  insert_by-Sorted : (x : A) (ys : List A) → Sorted ys → Sorted (insert_by key x ys)
  unfolding insert_by
  insert_by-Sorted x [] h = (tt, tt)
  insert_by-Sorted x (y ∷ ys) h = elim (Bool-cases (leb (key x) (key y))) [
    | inl before ↦
        let first : key x ≤ key y = ground arith in
        rw before ((first, All-map (λ z (r : key y ≤ key z). omega arith) ys h.0), h)
    | inr after ↦
        rw after
          (All-insert (λ z. key y ≤ key z) x ys (ground arith) h.0, insert_by-Sorted x ys h.1)
  ]

  pub sort_by-Sorted : (xs : List A) → Sorted (sort_by key xs)
  unfolding sort_by
  sort_by-Sorted [] = tt
  sort_by-Sorted (x ∷ xs) = insert_by-Sorted x (sort_by key xs) (sort_by-Sorted xs)

  All-filter_le :
      (q : A → Bool) (n : ℕ) (ys : List A)
      → All (λ y. n ≤ key y) ys
      → All (λ y. n ≤ key y) (filter q ys)
  All-filter_le q n [] h = tt
  All-filter_le q n (y ∷ ys) h = ground (arith, All-filter_le q n ys)

  -- An element that is least goes first.
  insert_by-least :
      (x : A) (ys : List A) → All (λ y. key x ≤ key y) ys → insert_by key x ys ≡ x ∷ ys
  unfolding insert_by
  insert_by-least x [] h = refl
  insert_by-least x (y ∷ ys) h = ground arith

  filter-insert_by_hit :
      (q : A → Bool) (x : A) (ys : List A)
      → q x ≡ true
      → Sorted ys
      → filter q (insert_by key x ys) ≡ insert_by key x (filter q ys)
  unfolding insert_by
  filter-insert_by_hit q x [] h s = rw h refl
  filter-insert_by_hit q x (y ∷ ys) h s = elim (Bool-cases (leb (key x) (key y))) [
    | inl before ↦
        let first : key x ≤ key y = ground arith in
        rw (before, h)
          (sym (
            insert_by-least x (filter q (y ∷ ys)) (
              All-filter_le q (key x) (y ∷ ys)
                (first, All-map (λ z (r : key y ≤ key z). omega arith) ys s.0))))
    | inr after ↦ elim (Bool-cases (q y)) [
      | inl p ↦
          let left : filter q (insert_by key x (y ∷ ys)) ≡ y ∷ filter q (insert_by key x ys) =
            rw (after, p) refl in
          let right : insert_by key x (filter q (y ∷ ys)) ≡ y ∷ insert_by key x (filter q ys) =
            kept p (rw after refl) in
          left ∙ ap (◌∷◌ y) (filter-insert_by_hit q x ys h s.1) ∙ sym right
      | inr p ↦ rw (after, p) (filter-insert_by_hit q x ys h s.1)
    ]
  ]
    where
      kept :
          q y ≡ true
          → insert_by key x (y ∷ filter q ys) ≡ y ∷ insert_by key x (filter q ys)
          → insert_by key x (filter q (y ∷ ys)) ≡ y ∷ insert_by key x (filter q ys)
      kept p e = rw p e

  filter-insert_by_miss :
      (q : A → Bool) (x : A) (ys : List A)
      → q x ≡ false
      → filter q (insert_by key x ys) ≡ filter q ys
  unfolding insert_by
  filter-insert_by_miss q x [] h = rw h refl
  filter-insert_by_miss q x (y ∷ ys) h = ground (arith, filter-insert_by_miss q x ys h)

  -- Sorting and filtering go in either order.
  pub filter-sort_by :
      (q : A → Bool) (xs : List A) → filter q (sort_by key xs) ≡ sort_by key (filter q xs)
  unfolding sort_by
  filter-sort_by q [] = refl
  filter-sort_by q (x ∷ xs) = elim (Bool-cases (q x)) [
    | inl p ↦ rw p (
        filter-insert_by_hit q x (sort_by key xs) p (sort_by-Sorted xs)
        ∙ ap (insert_by key x) (filter-sort_by q xs))
    | inr p ↦ rw p (filter-insert_by_miss q x (sort_by key xs) p ∙ filter-sort_by q xs)
  ]

module _ {ℓ κ} {A : Type ℓ} {B : Type κ} (f : A → B) (key : A → ℕ) (key' : B → ℕ) where
  map-insert_by :
      (x : A) (ys : List A)
      → key' (f x) ≡ key x
      → All (λ y. key' (f y) ≡ key y) ys
      → map f (insert_by key x ys) ≡ insert_by key' (f x) (map f ys)
  unfolding insert_by
  map-insert_by x [] h hs = refl
  map-insert_by x (y ∷ ys) h hs = ground (arith, h, hs.0, map-insert_by x ys h hs.1)

  -- Sorting what a function makes of a list, by keys that agree.
  pub map-sort_by :
      (xs : List A)
      → All (λ x. key' (f x) ≡ key x) xs
      → map f (sort_by key xs) ≡ sort_by key' (map f xs)
  unfolding sort_by
  map-sort_by [] h = refl
  map-sort_by (x ∷ xs) h =
      map-insert_by x (sort_by key xs) h.0 (All-sort_by key (λ y. key' (f y) ≡ key y) xs h.1)
      ∙ ap (insert_by key' (f x)) (map-sort_by xs h.1)
