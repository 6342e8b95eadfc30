-- ===== src/Journal/Admission/Payment.antt =====
-- What the proof of an imported call's options costs, in the model of src/workflowJournal.ts.
use Prim.Native.String.{len}
use mathlib.Core.Bool.{true≢false}
use workflow_mcp.Common.{
  ℕ, zero, suc, ◌+◌, ◌≤◌, String, List, [], ◌∷◌, ◌≡◌, ◌≢◌, ◌⊎◌, ◌<◌, refl, sym, ◌∙◌, ap, some, All,
  take, get_elem?, eq_iff, Bool, true, false, arith, inl, inr, length, str_eq, ltb, ◌==◌,
  Bool-cases,
}
use workflow_mcp.Journal.Keys.{journal_key}
use workflow_mcp.Journal.Admission.{Budget, spend, try_predecessors}

-- The bytes that the digest of a key reads, with the two separators.
abbrev pub cost_of : String → String → String → ℕ
cost_of prompt canonical key = len prompt + len canonical + 2 + len key

-- The bytes for the first `count` keys.
unfoldable pub cost_of_first : String → String → ℕ → List String → ℕ
cost_of_first prompt canonical zero keys = 0
cost_of_first prompt canonical (suc count) [] = 0
cost_of_first prompt canonical (suc count) (key ∷ keys) =
    cost_of prompt canonical key + cost_of_first prompt canonical count keys

-- Where `count` keys were tried.
abbrev pub Pays : String → String → List String → Budget → Budget → ℕ → Type 0
Pays prompt canonical keys budget left count =
    (count ≤ length keys)
    × (left.hashes + count ≡ budget.hashes)
    × (left.bytes + cost_of_first prompt canonical count keys ≡ budget.bytes)

-- The budget does not cover one more digest, for this key.
abbrev pub IsTooDear : String → String → Budget → String → Type 0
IsTooDear prompt canonical left key =
    (left.hashes ≡ 0) ⊎ (left.bytes < cost_of prompt canonical key)

module _ (sha256 : String → String) (target prompt canonical : String) where
  -- Under the key the call would have the target's key behind it, or would not.
  abbrev pub IsPredecessor : String → Type 0
  IsPredecessor key = journal_key sha256 key prompt canonical ≡ target

  abbrev pub IsOther : String → Type 0
  IsOther key = journal_key sha256 key prompt canonical ≢ target

  -- Where the search ends that tried `count` keys. One that finds a predecessor tried it last; one that
  -- finds none tried all keys, or the budget that is left does not cover the next.
  unfoldable pub Ends : Bool → List String → Budget → ℕ → Type 0
  Ends true keys left count =
      (before : ℕ) × (key : String) × (count ≡ suc before)
      × (get_elem? keys before ≡ some key)
      × IsPredecessor key
      × All IsOther (take before keys)
  Ends false keys left count =
      All IsOther (take count keys)
      × ((count ≡ length keys)
          ⊎ (key : String) × (get_elem? keys count ≡ some key)
            × IsTooDear prompt canonical left key)

  Ends-cons :
      (found : Bool) (key : String) (keys : List String) (left : Budget) (count : ℕ)
      → IsOther key
      → Ends found keys left count
      → Ends found (key ∷ keys) left (suc count)
  unfolding Ends take
  Ends-cons true key keys left count other (before, last, same, at, fits, others) =
      (suc before, last, ap suc same, at, fits, (other, others))
  Ends-cons false key keys left count other (others, inl all) = ((other, others), inl (ap suc all))
  Ends-cons false key keys left count other (others, inr next) = ((other, others), inr next)

  -- The search for a predecessor among the keys of a journal tries some of the first of them, in their
  -- order, and pays one digest for each and the bytes that it reads, all out of the budget. If it finds
  -- one, that is the last key that it tried, and no key before it is a predecessor; if it finds none, no
  -- key that it tried is one, and it tried all or has not enough left for the next.
  pub try_predecessors-Pays :
      (keys : List String) (budget : Budget)
      → (count : ℕ) × Pays prompt canonical keys budget
          (try_predecessors sha256 target prompt canonical keys budget).1
          count
        × Ends
            (try_predecessors sha256 target prompt canonical keys budget).0
            keys
            (try_predecessors sha256 target prompt canonical keys budget).1
            count
  unfolding try_predecessors cost_of_first Ends take
  try_predecessors-Pays [] budget = (0, (omega arith, omega arith, omega arith), (tt, inl refl))
  try_predecessors-Pays (key ∷ keys) budget = elim (Bool-cases (budget.hashes == 0)) [
    | inl none_left ↦
        rw none_left
          (0, (omega arith, omega arith, omega arith), (tt, inr (key, refl, inl (ground arith))))
    | inr some_left ↦ elim (Bool-cases (ltb budget.bytes (cost_of prompt canonical key))) [
      | inl too_dear ↦
          rw (some_left, too_dear)
            (0, (omega arith, omega arith, omega arith), (tt, inr (key, refl, inr (ground arith))))
      | inr affordable ↦
          elim (Bool-cases (str_eq (journal_key sha256 key prompt canonical) target)) [
            | inl matches ↦
                rw (some_left, affordable, matches)
                  (
                    1,
                    (omega arith, ground arith, ground arith),
                    (
                      0,
                      key,
                      refl,
                      refl,
                      (eq_iff (journal_key sha256 key prompt canonical) target).0 matches,
                      tt,
                    ),
                  )
            | inr differs ↦
                let (count, (few, hashes, bytes), end) =
                  try_predecessors-Pays keys (spend (cost_of prompt canonical key) budget) in
                rw (some_left, affordable, differs)
                  (
                    suc count,
                    (omega arith, ground arith, ground arith),
                    Ends-cons _ key keys _ count
                        (λ same. true≢false (
                          sym ((eq_iff (journal_key sha256 key prompt canonical) target).1 same)
                          ∙ differs))
                        end,
                  )
          ]
    ]
  ]
