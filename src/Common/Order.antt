-- ===== src/Common/Order.antt =====
-- `Array.prototype.sort` by a numeric key: a stable sort.
use Prim.Native.Nat.{ℕ, ◌<◌, ◌+◌}
use mathlib.Core.Path.{◌≡◌, refl}
use mathlib.Core.Logic.{◌≢◌, ◌⊎◌, inl, inr}
use mathlib.Core.List.{List, [], ◌∷◌}
use native.Mathlib.Omega.{arith}
use workflow_mcp.Common.Tests.{if◌then◌else◌, leb, Bool-cases}
use workflow_mcp.Common.Lists.{length}
use workflow_mcp.Common.Predicates.{All, All-map, Any, Pairwise}

module _ {ℓ} {A : Type ℓ} (key : A → ℕ) where
  -- An element goes before those of an equal key: it stood before them.
  unfoldable pub insert_by : A → List A → List A
  insert_by x [] = x ∷ []
  insert_by x (y ∷ ys) = if leb (key x) (key y) then x ∷ y ∷ ys else y ∷ insert_by x ys

  unfoldable pub sort_by : List A → List A
  unfolding insert_by
  sort_by [] = []
  sort_by (x ∷ xs) = insert_by x (sort_by xs)

  abbrev pub Ascending : List A → Type 0
  Ascending = Pairwise λ x y. key x < key y

  All-insert_by : (P : A → Type 0) (x : A) (ys : List A) → P x → All P ys → All P (insert_by x ys)
  unfolding insert_by
  All-insert_by P x [] hx h = (hx, tt)
  All-insert_by P x (y ∷ ys) hx h = ground (arith, All-insert_by P x ys hx)

  pub All-sort_by : (P : A → Type 0) (xs : List A) → All P xs → All P (sort_by xs)
  unfolding sort_by
  All-sort_by P [] h = tt
  All-sort_by P (x ∷ xs) h = All-insert_by P x (sort_by xs) h.0 (All-sort_by P xs h.1)

  length-insert_by : (x : A) (ys : List A) → length (insert_by x ys) ≡ length ys + 1
  unfolding insert_by
  length-insert_by x [] = omega arith
  length-insert_by x (y ∷ ys) = ground (arith, length-insert_by x ys)

  pub length-sort_by : (xs : List A) → length (sort_by xs) ≡ length xs
  unfolding sort_by
  length-sort_by [] = refl
  length-sort_by (x ∷ xs) = omega (arith, length-insert_by x (sort_by xs), length-sort_by xs)

  insert_by-Pairwise :
      (R : A → A → Type 0)
      → ((x y : A) → R x y → R y x)
      → (x : A) (ys : List A) → All (R x) ys
      → Pairwise R ys
      → Pairwise R (insert_by x ys)
  unfolding insert_by
  insert_by-Pairwise R flip x [] hx h = (tt, tt)
  insert_by-Pairwise R flip x (y ∷ ys) hx h = elim (Bool-cases (leb (key x) (key y))) [
    | inl before ↦ rw before (hx, h)
    | inr after ↦
        rw after
          (All-insert_by (R y) x ys (flip x y hx.0) h.0, insert_by-Pairwise R flip x ys hx.1 h.1)
  ]

  -- Sorting keeps a symmetric relation between every two elements.
  pub sort_by-Pairwise :
      (R : A → A → Type 0)
      → ((x y : A) → R x y → R y x)
      → (xs : List A) → Pairwise R xs
      → Pairwise R (sort_by xs)
  unfolding sort_by
  sort_by-Pairwise R flip [] h = tt
  sort_by-Pairwise R flip (x ∷ xs) h =
      insert_by-Pairwise R flip x (sort_by xs) (All-sort_by (R x) xs h.0)
        (sort_by-Pairwise R flip xs h.1)

  insert_by-Ascending :
      (x : A) (ys : List A)
      → All (λ y. key x ≢ key y) ys
      → Ascending ys
      → Ascending (insert_by x ys)
  unfolding insert_by
  insert_by-Ascending x [] hx h = (tt, tt)
  insert_by-Ascending x (y ∷ ys) hx h = elim (Bool-cases (leb (key x) (key y))) [
    | inl before ↦
        let first : key x < key y = ground arith in
        rw before ((first, All-map (λ z (r : key y < key z). omega arith) ys h.0), h)
    | inr after ↦ rw after (
      All-insert_by (λ z. key y < key z) x ys (ground arith) h.0,
      insert_by-Ascending x ys hx.1 h.1,
    )
  ]

  -- Distinct keys come out in ascending order.
  pub sort_by-Ascending :
      (xs : List A) → Pairwise (λ x y. key x ≢ key y) xs → Ascending (sort_by xs)
  unfolding sort_by
  sort_by-Ascending [] h = tt
  sort_by-Ascending (x ∷ xs) h =
      insert_by-Ascending x (sort_by xs) (All-sort_by (λ y. key x ≢ key y) xs h.0)
        (sort_by-Ascending xs h.1)

  Any-insert_by : (P : A → Type 0) (x : A) (ys : List A) → P x ⊎ Any P ys → Any P (insert_by x ys)
  unfolding insert_by
  Any-insert_by P x [] h = h
  Any-insert_by P x (y ∷ ys) h = elim (Bool-cases (leb (key x) (key y))) [
    | inl before ↦ rw before h
    | inr after ↦ rw after (elim h [
      | inl p ↦ inr (Any-insert_by P x ys (inl p))
      | inr (inl q) ↦ inl q
      | inr (inr q) ↦ inr (Any-insert_by P x ys (inr q))
    ])
  ]

  pub Any-sort_by : (P : A → Type 0) (xs : List A) → Any P xs → Any P (sort_by xs)
  unfolding sort_by
  Any-sort_by P [] h = h
  Any-sort_by P (x ∷ xs) (inl h) = Any-insert_by P x (sort_by xs) (inl h)
  Any-sort_by P (x ∷ xs) (inr h) = Any-insert_by P x (sort_by xs) (inr (Any-sort_by P xs h))

  pub Ascending-distinct : (xs : List A) → Ascending xs → Pairwise (λ x y. key x ≢ key y) xs
  Ascending-distinct [] h = tt
  Ascending-distinct (x ∷ xs) h =
      (All-map (λ y (r : key x < key y). omega arith) xs h.0, Ascending-distinct xs h.1)
