-- ===== src/State/Attempts.antt =====
-- The attempts of an agent in src/workflowState.ts: what every event keeps true of them.
pub mod Changes
use workflow_mcp.Common.{
  ◌≡◌, refl, sym, ◌∙◌, subst, ◌≢◌, ◌<◌, inl, inr, String, Bool, true, false, Option, none, some,
  List, [], ◌∷◌, ◌++◌, map, arith, All, Pairwise, All-set, All-get_elem?, Pairwise-set,
  Pairwise-append_one, All-append, Pairwise-map, All-map_same, Ascending-distinct, any-false,
  All-map, Result, ok, err, ◌>>=◌, >>=-eq-ok, modify_first, modify_first-Modifies, Ascending,
  sort_by, sort_by-Ascending, sort_by-Pairwise, All-sort_by, Bool-cases, eq_iff, eq_refl, any,
  length, get_elem?, set, str_eq,
}
use workflow_mcp.Events.{WorkflowErrorReference, AttemptEvent, ActivityPatch}
use workflow_mcp.State.Snapshot.{
  WorkflowActivitySnapshot, WorkflowAttemptSnapshot, WorkflowAgentSnapshot,
}
use workflow_mcp.State.Update.{ReduceError, change_attempt, has_attempt_id}
use workflow_mcp.State.Handlers.Attempt.{reduce_attempt, has_activity_id}

-- No two activities of an attempt share an identity.
abbrev pub DistinctActivities : List WorkflowActivitySnapshot → Type 0
DistinctActivities = Pairwise λ a b. a.details.activity_id ≢ b.details.activity_id

abbrev pub ActivitiesWell : WorkflowAttemptSnapshot → Type 0
ActivitiesWell attempt = DistinctActivities attempt.activities

-- No two attempts share an identity, and their numbers ascend.
pub record AttemptsWell (attempts : List WorkflowAttemptSnapshot) : Type 0 where
  pub ids : Pairwise (λ a b. a.id ≢ b.id) attempts
  pub numbers : Ascending (λ a. a.number) attempts
  pub activities : All ActivitiesWell attempts

-- The second attempt is a later state of the first.
pub record SameAttempt (x y : WorkflowAttemptSnapshot) : Type 0 where
  pub id : y.id ≡ x.id
  pub number : y.number ≡ x.number
  pub activities : ActivitiesWell x → ActivitiesWell y

pub SameAttempt-refl : (x : WorkflowAttemptSnapshot) → SameAttempt x x
SameAttempt-refl x = record { id = refl; number = refl; activities = λ h. h }

pub change_attempt-AttemptsWell :
    (id : String) (update : WorkflowAttemptSnapshot → Result ReduceError WorkflowAttemptSnapshot)
    (xs ys : List WorkflowAttemptSnapshot)
    → ((x y : WorkflowAttemptSnapshot) → update x ≡ ok y → SameAttempt x y)
    → change_attempt id update xs ≡ ok ys
    → AttemptsWell xs
    → AttemptsWell ys
unfolding change_attempt
change_attempt-AttemptsWell id update xs ys same h w =
    let (i, x, y, at, found, hit, changed, e) = modify_first-Modifies _ _ _ update xs ys h in
    let s : SameAttempt x y = same x y changed in
    subst AttemptsWell (sym e) (record {
      ids =
          Pairwise-set (λ a b. a.id ≢ b.id) xs i x y found (λ z n p. n (sym s.id ∙ p))
            (λ z n p. n (p ∙ s.id)) w.ids;
      numbers =
          Pairwise-set (λ a b. a.number < b.number) xs i x y found (λ z r. omega (arith, s.number))
            (λ z r. omega (arith, s.number)) w.numbers;
      activities =
          All-set ActivitiesWell xs i y w.activities
            (s.activities (All-get_elem? ActivitiesWell xs i w.activities found));
    })

pub map-AttemptsWell :
    (f : WorkflowAttemptSnapshot → WorkflowAttemptSnapshot)
    → ((x : WorkflowAttemptSnapshot) → SameAttempt x (f x))
    → (xs : List WorkflowAttemptSnapshot) → AttemptsWell xs
    → AttemptsWell (map f xs)
map-AttemptsWell f same xs w = record {
  ids =
      Pairwise-map (λ a b. a.id ≢ b.id) f (λ x y n p. n (sym (same x).id ∙ p ∙ (same y).id)) xs
        w.ids;
  numbers =
      Pairwise-map (λ a b. a.number < b.number) f
        (λ x y r. omega (arith, (same x).number, (same y).number)) xs w.numbers;
  activities = All-map_same ActivitiesWell f (λ x. (same x).activities) xs w.activities;
}

-- An attempt that joins has a new identity and a new number.
pub add_attempt-AttemptsWell :
    (xs : List WorkflowAttemptSnapshot) (x : WorkflowAttemptSnapshot)
    → All (λ y. y.id ≢ x.id) xs
    → All (λ y. y.number ≢ x.number) xs
    → ActivitiesWell x
    → AttemptsWell xs
    → AttemptsWell (sort_by (λ a. a.number) (xs ++ x ∷ []))
add_attempt-AttemptsWell xs x fresh other quiet w = record {
  ids =
      sort_by-Pairwise _ (λ a b. a.id ≢ b.id) (λ a b n p. n (sym p)) (xs ++ x ∷ [])
        (Pairwise-append_one (λ a b. a.id ≢ b.id) xs x w.ids fresh);
  numbers = sort_by-Ascending _ (xs ++ x ∷ []) (
      Pairwise-append_one (λ a b. a.number ≢ b.number) xs x (Ascending-distinct _ xs w.numbers)
        other);
  activities =
      All-sort_by _ ActivitiesWell (xs ++ x ∷ [])
        (All-append ActivitiesWell xs (x ∷ []) w.activities (quiet, tt));
}
