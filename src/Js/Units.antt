-- ===== src/Js/Units.antt =====
-- Strings as JavaScript compares them: by their UTF-16 code units. `Array.prototype.sort` without a
-- comparison orders property names so.
use Prim.Native.Char.{code}
use workflow_mcp.Common.{
  ℕ, ◌+◌, ◌-◌, ◌/◌, ◌%◌, String, ◌≡◌, refl, ◌≢◌, Bool, true, false, List, [], ◌∷◌, ◌++◌, ltb, ◌==◌,
  if◌then◌else◌, arith,
}

-- A character beyond the basic plane is a surrogate pair.
unfoldable pub char_units : ℕ → List ℕ
char_units c =
    if ltb c 65536 then c ∷ [] else (55296 + (c - 65536) / 1024) ∷ (56320 + (c - 65536) % 1024) ∷ []

unfoldable pub units : String → List ℕ
unfolding char_units
units String.[] = []
units (String.◌∷◌ c s) = char_units (code c) ++ units s

-- The first list stands before the second, or is it.
unfoldable pub units_le : List ℕ → List ℕ → Bool
units_le [] ys = true
units_le (x ∷ xs) [] = false
units_le (x ∷ xs) (y ∷ ys) =
    let later = units_le xs ys in if ltb x y then true else if x == y then later else false

pub units_le_total : (xs ys : List ℕ) → units_le xs ys ≡ false → units_le ys xs ≡ true
unfolding units_le
units_le_total [] ys h = cc
units_le_total (x ∷ xs) [] h = refl
units_le_total (x ∷ xs) (y ∷ ys) h = ground (arith, units_le_total xs ys)

pub units_le_antisym : (xs ys : List ℕ) → units_le xs ys ≡ true → units_le ys xs ≡ true → xs ≡ ys
unfolding units_le
units_le_antisym [] [] h k = refl
units_le_antisym [] (y ∷ ys) h k = cc
units_le_antisym (x ∷ xs) [] h k = cc
units_le_antisym (x ∷ xs) (y ∷ ys) h k = ground (arith, units_le_antisym xs ys)

pub units_le_trans :
    (xs ys zs : List ℕ) → units_le xs ys ≡ true → units_le ys zs ≡ true → units_le xs zs ≡ true
unfolding units_le
units_le_trans [] ys zs h k = refl
units_le_trans (x ∷ xs) [] zs h k = cc
units_le_trans (x ∷ xs) (y ∷ ys) [] h k = cc
units_le_trans (x ∷ xs) (y ∷ ys) (z ∷ zs) h k = ground (arith, units_le_trans xs ys zs)

module _ {ℓ} {A : Type ℓ} where
  -- `keys.sort()`, with what stands under each key.
  unfoldable pub insert_key : String × A → List (String × A) → List (String × A)
  insert_key x [] = x ∷ []
  insert_key x (y ∷ ys) =
      let later = insert_key x ys in
      if units_le (units x.0) (units y.0) then x ∷ y ∷ ys else y ∷ later

  unfoldable pub sort_keys : List (String × A) → List (String × A)
  unfolding insert_key
  sort_keys [] = []
  sort_keys (x ∷ xs) = insert_key x (sort_keys xs)

  -- Entries of different keys are inserted in either order.
  pub insert_key_comm :
      (x y : String × A) (zs : List (String × A))
      → units x.0 ≢ units y.0
      → insert_key x (insert_key y zs) ≡ insert_key y (insert_key x zs)
  unfolding insert_key
  insert_key_comm x y [] n =
      ground
        (arith, units_le_total (units x.0) (units y.0), units_le_antisym (units x.0) (units y.0))
  insert_key_comm x y (z ∷ zs) n = ground (
    arith,
    units_le_total (units x.0) (units y.0),
    units_le_antisym (units x.0) (units y.0),
    units_le_trans (units x.0) (units y.0) (units z.0),
    units_le_trans (units y.0) (units x.0) (units z.0),
    insert_key_comm x y zs n,
  )
