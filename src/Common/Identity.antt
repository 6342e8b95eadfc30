-- ===== src/Common/Identity.antt =====
-- Lists whose elements carry a text for an identity.
use mathlib.Core.Path.{◌≡◌, refl, sym, ◌∙◌, subst}
use mathlib.Core.Logic.{◌≢◌, ◌↔◌, inl, inr}
use mathlib.Core.Bool.{false}
use mathlib.Core.Option.{some}
use mathlib.Core.List.{List, [], ◌∷◌}
use Prim.Native.String.{String}
use native.Mathlib.Omega.{arith}
use text.Mathlib.Text.{◌==◌ as str_eq}
use text.Mathlib.TextEquality.{eq_iff}
use text.Mathlib.TextPositions.{eq_refl}
use workflow_mcp.Common.Tests.{Bool-cases}
use workflow_mcp.Common.Lists.{any}
use workflow_mcp.Common.Predicates.{
  All, Any, Pairwise, All-map, Any-map, any-false, All-get_elem?, Any-get_elem?, Any-map,
}
use workflow_mcp.Common.Outcome.{Result, ok, IsOk, IsOk-value}
use workflow_mcp.Common.Search.{find, modify_first, modify_first-Modifies, modify_first-found}

pub other_text : (s t : String) → str_eq s t ≡ false → s ≢ t
other_text s t h e = cc (rw (e, eq_refl t) at h)

pub str_eq-ne : (s t : String) → s ≢ t → str_eq s t ≡ false
str_eq-ne s t n = elim (Bool-cases (str_eq s t)) [
  | inl same ↦ absurd (n ((eq_iff s t).0 same))
  | inr other ↦ other
]

module _ {ℓ} {A : Type ℓ} (key : A → String) where
  -- `!xs.some(x => x.id === id)`.
  pub any-key_iff :
      (id : String) (xs : List A)
      → (any (λ x. str_eq (key x) id) xs ≡ false) ↔ All (λ x. key x ≢ id) xs
  any-key_iff id xs =
      ((λ h. All-map (λ x n. other_text (key x) id n) xs (any-false _ xs h)), none_of xs)
    where
      none_of : (ys : List A) → All (λ x. key x ≢ id) ys → any (λ x. str_eq (key x) id) ys ≡ false
      none_of [] h = refl
      none_of (y ∷ ys) h = ground (arith, str_eq-ne (key y) id h.0, none_of ys h.1)

  -- With distinct identities, an element of an identity is the one that is found.
  pub find-key :
      (P : A → Type 0) (id : String) (xs : List A)
      → Pairwise (λ x y. key x ≢ key y) xs
      → Any (λ x. (key x ≡ id) × P x) xs
      → (x : A) × (find (λ y. str_eq (key y) id) xs ≡ some x) × P x
  find-key P id [] d h = absurd h
  find-key P id (x ∷ xs) d (inl h) = (x, rw (h.0, eq_refl id), h.1)
  find-key P id (x ∷ xs) d (inr h) =
      let (y, found, p) = find-key P id xs d.1 h in
      (y, rw (str_eq-ne (key x) id (apart xs d.0 h)) found, p)
    where
      apart :
          (ys : List A)
          → All (λ y. key x ≢ key y) ys
          → Any (λ y. (key y ≡ id) × P y) ys
          → key x ≢ id
      apart [] a b = absurd b
      apart (y ∷ ys) a (inl b) = λ e. a.0 (e ∙ sym b.0)
      apart (y ∷ ys) a (inr b) = apart ys a.1 b

  module _ {E : Type 0} (missing vanished : E) (id : String) where
    -- A replacement succeeds exactly when an element of the identity can be changed.
    pub modify_first-IsOk :
        (P : A → Type 0) (update : A → Result E A) (xs : List A)
        → Pairwise (λ x y. key x ≢ key y) xs
        → All (λ x. IsOk (update x) ↔ P x) xs
        → IsOk (modify_first missing vanished (λ x. str_eq (key x) id) update xs)
          ↔ Any (λ x. (key x ≡ id) × P x) xs
    modify_first-IsOk P update xs d f = (forward, backward)
      where
        forward :
            IsOk (modify_first missing vanished (λ x. str_eq (key x) id) update xs)
            → Any (λ x. (key x ≡ id) × P x) xs
        forward h =
            let (ys, e) = IsOk-value _ h in
            let (i, x, y, at, found, hit, changed, e') =
              modify_first-Modifies missing vanished (λ x. str_eq (key x) id) update xs ys e in
            Any-get_elem? (λ x. (key x ≡ id) × P x) xs i found
              (
                (eq_iff (key x) id).0 hit,
                (All-get_elem? (λ x. IsOk (update x) ↔ P x) xs i f found).0
                    (subst IsOk (sym changed) tt),
              )

        backward :
            Any (λ x. (key x ≡ id) × P x) xs
            → IsOk (modify_first missing vanished (λ x. str_eq (key x) id) update xs)
        backward h =
            let (x, found, p) =
              find-key (λ x. P x × (IsOk (update x) ↔ P x)) id xs d (both xs f h) in
            modify_first-found missing vanished (λ x. str_eq (key x) id) update xs x found
              (p.1.1 p.0)
          where
            both :
                (ys : List A)
                → All (λ x. IsOk (update x) ↔ P x) ys
                → Any (λ x. (key x ≡ id) × P x) ys
                → Any (λ x. (key x ≡ id) × (P x × (IsOk (update x) ↔ P x))) ys
            both [] a b = b
            both (y ∷ ys) a (inl b) = inl (b.0, (b.1, a.0))
            both (y ∷ ys) a (inr b) = inr (both ys a.1 b)

    -- Where the change always succeeds, the element only has to exist.
    pub modify_first-IsOk_of_Any :
        (f : A → A) (xs : List A)
        → Pairwise (λ x y. key x ≢ key y) xs
        → IsOk (modify_first missing vanished (λ x. str_eq (key x) id) (λ x. ok (f x)) xs)
          ↔ Any (λ x. key x ≡ id) xs
    modify_first-IsOk_of_Any f xs d =
        let (there, back) = modify_first-IsOk (λ x. Unit {0}) (λ x. ok (f x)) xs d (fine xs) in
        ((λ h. Any-map (λ x p. p.0) xs (there h)), (λ h. back (Any-map (λ x p. (p, tt)) xs h)))
      where
        fine : (ys : List A) → All (λ x. IsOk {E = E} {A = A} (ok (f x)) ↔ Unit {0}) ys
        fine [] = tt
        fine (y ∷ ys) = (((λ h. h), (λ h. h)), fine ys)
