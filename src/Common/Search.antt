-- ===== src/Common/Search.antt =====
-- `findIndex`, and the replacement of the element found in a copy of the list.
use Prim.Native.Nat.{ℕ, zero, suc}
use mathlib.Core.Path.{◌≡◌, refl, sym, ◌∙◌}
use mathlib.Core.Logic.{◌⊎◌, inl, inr}
use mathlib.Core.Bool.{Bool, true, false}
use mathlib.Core.Option.{Option, none, some}
use mathlib.Core.List.{List, [], ◌∷◌}
use native.Mathlib.Omega.{arith}
use workflow_mcp.Common.Tests.{if◌then◌else◌, Bool-cases, Option-cases}
use workflow_mcp.Common.Lists.{get_elem?, set}
use workflow_mcp.Common.Predicates.{All, Any}
use workflow_mcp.Common.Outcome.{Result, ok, err, ◌>>=◌, IsOk, >>=-eq-ok, IsOk->>=}

abbrev shift : Option ℕ → Option ℕ
shift none = none
shift (some i) = some (suc i)

module _ {ℓ} {A : Type ℓ} where
  -- `xs.findIndex(p)`, with `none` for -1.
  unfoldable pub find_index : (A → Bool) → List A → Option ℕ
  find_index p [] = none
  find_index p (x ∷ xs) = if p x then some 0 else shift (find_index p xs)

  -- `xs.find(p)`.
  abbrev pub find : (A → Bool) → List A → Option A
  find p [] = none
  find p (x ∷ xs) = if p x then some x else find p xs

  pub find_index-some :
      (p : A → Bool) (xs : List A) (i : ℕ)
      → find_index p xs ≡ some i
      → (x : A) × (get_elem? xs i ≡ some x) × (p x ≡ true)
  unfolding find_index
  find_index-some p [] i h = cc
  find_index-some p (x ∷ xs) zero h = (x, refl, ground arith)
  find_index-some p (x ∷ xs) (suc i) h = find_index-some p xs i (ground arith)

  pub find_index-none :
      (p : A → Bool) (xs : List A) → find_index p xs ≡ none → All (λ x. p x ≡ false) xs
  unfolding find_index
  find_index-none p [] h = tt
  find_index-none p (x ∷ xs) h = (ground arith, find_index-none p xs (ground arith))

  pub find_index_of_Any :
      (p : A → Bool) (xs : List A) → Any (λ x. p x ≡ true) xs → (i : ℕ) × (find_index p xs ≡ some i)
  unfolding find_index
  find_index_of_Any p [] h = absurd h
  find_index_of_Any p (x ∷ xs) (inl h) = (0, rw h)
  find_index_of_Any p (x ∷ xs) (inr h) = elim (Bool-cases (p x)) [
    | inl hit ↦ (0, rw hit)
    | inr miss ↦ let (i, e) = find_index_of_Any p xs h in (suc i, rw (miss, e))
  ]

  -- The index and the element are found together: `xs[findIndex(p)]` is `find(p)`.
  pub find-find_index :
      (p : A → Bool) (xs : List A) (i : ℕ) → find_index p xs ≡ some i → find p xs ≡ get_elem? xs i
  unfolding find_index
  find-find_index p [] i h = cc
  find-find_index p (x ∷ xs) zero h = ground arith
  find-find_index p (x ∷ xs) (suc i) h = ground (arith, find-find_index p xs i)

  find-none : (p : A → Bool) (xs : List A) → find_index p xs ≡ none → find p xs ≡ none
  unfolding find_index
  find-none p [] h = refl
  find-none p (x ∷ xs) h = ground (arith, find-none p xs)

  pub find-set_ne :
      (p q : A → Bool) (xs : List A) (i : ℕ) (y : A)
      → find_index p xs ≡ some i
      → ((x : A) → p x ≡ true → q x ≡ false)
      → q y ≡ false
      → find q (set xs i y) ≡ find q xs
  unfolding find_index
  find-set_ne p q [] i y h f e = refl
  find-set_ne p q (x ∷ xs) zero y h f e = ground (arith, f x)
  find-set_ne p q (x ∷ xs) (suc i) y h f e = ground (arith, find-set_ne p q xs i y)

  pub find-set_self :
      (p : A → Bool) (xs : List A) (i : ℕ) (y : A)
      → find_index p xs ≡ some i
      → p y ≡ true
      → find p (set xs i y) ≡ some y
  unfolding find_index
  find-set_self p [] i y h e = cc
  find-set_self p (x ∷ xs) zero y h e = rw e
  find-set_self p (x ∷ xs) (suc i) y h e = ground (arith, find-set_self p xs i y)

  module _ {E : Type 0} (missing vanished : E) (p : A → Bool) where
    -- Find an element, check that the slot holds one, and replace it in a copy of the list.
    unfoldable pub modify_first : (A → Result E A) → List A → Result E (List A)
    unfolding find_index
    modify_first update xs = elim (find_index p xs) [
      | none ↦ err missing
      | some i ↦ elim (get_elem? xs i) [
        | none ↦ err vanished
        | some current ↦ update current >>= λ changed. ok (set xs i changed)
      ]
    ]

    -- What a successful replacement did: the first match was changed by `update`, and nothing else.
    abbrev pub Modifies : (A → Result E A) → List A → List A → Type ℓ
    Modifies update xs ys =
        (i : ℕ) × (x : A) × (y : A) × (find_index p xs ≡ some i)
        × (get_elem? xs i ≡ some x)
        × (p x ≡ true)
        × (update x ≡ ok y)
        × (ys ≡ set xs i y)

    pub modify_first-Modifies :
        (update : A → Result E A) (xs ys : List A)
        → modify_first update xs ≡ ok ys
        → Modifies update xs ys
    unfolding modify_first
    modify_first-Modifies update xs ys h = elim (Option-cases (find_index p xs)) [
      | inl e ↦ cc (rw (e, modify_first) at h)
      | inr (i, e) ↦
          let (x, found, hit) = find_index-some p xs i e in
          let h' = rw (e, found, modify_first) at h in
          let (y, changed, replaced) = >>=-eq-ok (update x) (λ v. ok (set xs i v)) h' in
          (i, x, y, e, found, hit, changed, cc)
    ]

    -- A failure is that of a missing element, or of `update` at the first match; the slot that
    -- `findIndex` answers is never empty.
    pub modify_first-err :
        (update : A → Result E A) (xs : List A) (e : E)
        → modify_first update xs ≡ err e
        → ((e ≡ missing) × All (λ x. p x ≡ false) xs)
          ⊎ ((x : A) × (find p xs ≡ some x) × (update x ≡ err e))
    unfolding modify_first
    modify_first-err update xs e h = elim (Option-cases (find_index p xs)) [
      | inl gone ↦ inl (cc (rw (gone, modify_first) at h), find_index-none p xs gone)
      | inr (i, at) ↦
          let (x, found, hit) = find_index-some p xs i at in
          inr (x, find-find_index p xs i at ∙ found, failed x i (rw (at, found, modify_first) at h))
    ]
      where
        failed : (x : A) (i : ℕ) → (update x >>= λ v. ok (set xs i v)) ≡ err e → update x ≡ err e
        failed x i k = ground arith

    pub modify_first-found :
        (update : A → Result E A) (xs : List A) (x : A)
        → find p xs ≡ some x
        → IsOk (update x)
        → IsOk (modify_first update xs)
    unfolding modify_first
    modify_first-found update xs x h k = elim (Option-cases (find_index p xs)) [
      | inl gone ↦ cc (find-none p xs gone)
      | inr (i, at) ↦
          let found = sym (find-find_index p xs i at) ∙ h in
          rw (at, found, modify_first) (IsOk->>= (update x) (λ v. ok (set xs i v)) k (λ v. tt))
    ]
