-- ===== src/Persistence/Merging/Sets.antt =====
-- Which texts a set has, when its elements are of a filtered list.
use workflow_mcp.Common.{
  String, Bool, true, false, ◌||◌, List, [], ◌∷◌, ◌++◌, ◌≡◌, refl, ap, arith, inl, inr, map, filter,
  All, All-map, str_eq, eq_iff, eq_refl, Bool-cases, ◌⊎◌,
}
use workflow_mcp.Persistence.Merging.{has}

pub has-append : (xs ys : List String) (t : String) → has (xs ++ ys) t ≡ (has xs t || has ys t)
has-append [] ys t = refl
has-append (x ∷ xs) ys t = ground (arith, has-append xs ys t)

module _ {ℓ} {A : Type ℓ} (g : A → String) where
  pub has-map_append :
      (xs ys : List A) (t : String)
      → has (map g (xs ++ ys)) t ≡ (has (map g xs) t || has (map g ys) t)
  has-map_append [] ys t = refl
  has-map_append (x ∷ xs) ys t = ground (arith, has-map_append xs ys t)

  -- An element that is kept stands in the set of what is kept.
  pub has-filter :
      (q : A → Bool) (xs : List A)
      → All (λ x. q x ≡ true → has (map g (filter q xs)) (g x) ≡ true) xs
  has-filter q [] = tt
  has-filter q (x ∷ xs) = (
    (λ kept. rw kept (rw (eq_refl (g x)) refl)),
    All-map (λ y h kept. later y (h kept)) xs (has-filter q xs),
  )
    where
      later :
          (y : A)
          → has (map g (filter q xs)) (g y) ≡ true
          → has (map g (filter q (x ∷ xs))) (g y) ≡ true
      later y h = elim (Bool-cases (q x)) [
        | inl kept ↦ rw kept (ground (arith, h))
        | inr gone ↦ rw gone h
      ]

  -- A wider test keeps at least as much.
  pub has-wider :
      (p q : A → Bool) (t : String) (xs : List A)
      → All (λ x. p x ≡ true → q x ≡ true) xs
      → has (map g (filter p xs)) t ≡ true
      → has (map g (filter q xs)) t ≡ true
  has-wider p q t [] wider h = h
  has-wider p q t (x ∷ xs) wider h = elim (Bool-cases (p x)) [
    | inl kept ↦
        rw (wider.0 kept) (or_later (str_eq t (g x)) (has-wider p q t xs wider.1) (rw kept at h))
    | inr gone ↦ still (Bool-cases (q x)) (has-wider p q t xs wider.1 (rw gone at h))
  ]
    where
      or_later : {b c : Bool} (a : Bool) → (b ≡ true → c ≡ true) → (a || b) ≡ true → (a || c) ≡ true
      or_later true f k = refl
      or_later false f k = f k

      still :
          (q x ≡ true) ⊎ (q x ≡ false)
          → has (map g (filter q xs)) t ≡ true
          → has (map g (filter q (x ∷ xs))) t ≡ true
      still (inl kept) k = rw kept (ground (arith, k))
      still (inr gone) k = rw gone k

  -- A text that no kept element has is not in the set.
  pub has-none :
      (q : A → Bool) (s : List String) (t : String) (xs : List A)
      → All (λ x. q x ≡ true → has s (g x) ≡ false) xs
      → has s t ≡ true
      → has (map g (filter q xs)) t ≡ false
  has-none q s t [] h k = refl
  has-none q s t (x ∷ xs) h k = elim (Bool-cases (q x)) [
    | inr gone ↦ rw gone (has-none q s t xs h.1 k)
    | inl kept ↦ elim (Bool-cases (str_eq t (g x))) [
      | inr other ↦ rw (kept, other) (has-none q s t xs h.1 k)
      | inl same ↦ let e : t ≡ g x = (eq_iff t (g x)).0 same in cc (h.0 kept, k, ap (has s) e)
    ]
  ]

pub filter-none {ℓ} :
    {A : Type ℓ} (q : A → Bool) (xs : List A) → All (λ x. q x ≡ false) xs → filter q xs ≡ []
filter-none q [] h = refl
filter-none q (x ∷ xs) h = rw h.0 (filter-none q xs h.1)
