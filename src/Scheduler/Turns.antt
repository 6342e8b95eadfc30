-- ===== src/Scheduler/Turns.antt =====
-- Whose turn it is in src/workConservingScheduler.ts: the ring of keys, and the waiter that is taken.
use workflow_mcp.Common.{
  ℕ, ◌%◌, ◌<◌, ◌≡◌, refl, ◌≢◌, inl, inr, String, true, false, not, some, List, [], ◌∷◌, ◌++◌, map,
  arith, length, get_elem?, get_elem?-lt, All, Any, Pairwise, All-map, Any-map, Any-filter,
  Any-filter_of, All-filter_test, Pairwise-filter, Any-get_elem?, str_eq, eq_iff, eq_refl,
  Bool-cases, Option-cases,
}
use workflow_mcp.Scheduler.{
  Waiter, Scheduler, unique_keys, queue_keys, turn, next_key, take_waiter, choose,
}

-- The keys of the ring are those of the list, each once.
unique_keys_sound :
    (k : String) (ks : List String) → Any (λ j. j ≡ k) (unique_keys ks) → Any (λ j. j ≡ k) ks
unfolding unique_keys
unique_keys_sound k [] h = h
unique_keys_sound k (j ∷ js) (inl h) = inl h
unique_keys_sound k (j ∷ js) (inr h) = inr (
    unique_keys_sound k js
      (Any-map (λ i p. p.0) (unique_keys js) (Any-filter (λ i. i ≡ k) _ (unique_keys js) h)))

unique_keys_complete :
    (k : String) (ks : List String) → Any (λ j. j ≡ k) ks → Any (λ j. j ≡ k) (unique_keys ks)
unfolding unique_keys
unique_keys_complete k [] h = h
unique_keys_complete k (j ∷ js) (inl h) = inl h
unique_keys_complete k (j ∷ js) (inr h) = elim (Bool-cases (str_eq j k)) [
  | inl same ↦ inl ((eq_iff j k).0 same)
  | inr other ↦ inr (
      Any-filter_of (λ i. i ≡ k) _ (unique_keys js)
        (Any-map (λ i p. (p, kept other i p)) (unique_keys js) (unique_keys_complete k js h)))
]
  where
    kept : str_eq j k ≡ false → (i : String) → i ≡ k → not (str_eq i j) ≡ true
    kept other i p = ground (arith, eq_iff i j, eq_iff j k)

unique_keys-distinct : (ks : List String) → Pairwise (λ i j. i ≢ j) (unique_keys ks)
unfolding unique_keys
unique_keys-distinct [] = tt
unique_keys-distinct (k ∷ ks) = (
  All-map (λ i p q. ground (arith, eq_iff i k)) _
      (All-filter_test (λ j. not (str_eq j k)) (unique_keys ks)),
  Pairwise-filter (λ i j. i ≢ j) _ (unique_keys ks) (unique_keys-distinct ks),
)

-- A key of the ring is that of a waiter.
abbrev pub HasKey : String → Waiter → Type 0
HasKey key w = w.fairness_key ≡ key

keys-waiter :
    (key : String) (ws : List Waiter)
    → Any (λ j. j ≡ key) (map (λ w. w.fairness_key) ws)
    → Any (HasKey key) ws
keys-waiter key [] h = h
keys-waiter key (w ∷ ws) (inl h) = inl h
keys-waiter key (w ∷ ws) (inr h) = inr (keys-waiter key ws h)

waiter-keys :
    (key : String) (ws : List Waiter)
    → Any (HasKey key) ws
    → Any (λ j. j ≡ key) (map (λ w. w.fairness_key) ws)
waiter-keys key [] h = h
waiter-keys key (w ∷ ws) (inl h) = inl h
waiter-keys key (w ∷ ws) (inr h) = inr (waiter-keys key ws h)

pub queue_keys-waiter :
    (key : String) (ws : List Waiter) (i : ℕ)
    → get_elem? (queue_keys ws) i ≡ some key
    → Any (HasKey key) ws
unfolding queue_keys
queue_keys-waiter key ws i h =
    keys-waiter key ws (unique_keys_sound key _ (Any-get_elem? (λ j. j ≡ key) _ i h refl))

pub queue_keys_complete :
    (key : String) (ws : List Waiter) → Any (HasKey key) ws → Any (λ j. j ≡ key) (queue_keys ws)
unfolding queue_keys
queue_keys_complete key ws h = unique_keys_complete key _ (waiter-keys key ws h)

pub queue_keys-distinct : (ws : List Waiter) → Pairwise (λ i j. i ≢ j) (queue_keys ws)
unfolding queue_keys
queue_keys-distinct ws = unique_keys-distinct (map (λ w. w.fairness_key) ws)

-- The waiter that is taken is the first of its key, and the others keep their order.
pub record Taken (key : String) (ws : List Waiter) (w : Waiter) (rest : List Waiter) : Type 0 where
  pub before : List Waiter
  pub after : List Waiter
  pub queue : ws ≡ before ++ w ∷ after
  pub left : rest ≡ before ++ after
  pub same : w.fairness_key ≡ key
  pub first : All (λ v. v.fairness_key ≢ key) before

pub take_waiter-Taken :
    (key : String) (ws : List Waiter) (w : Waiter) (rest : List Waiter)
    → take_waiter key ws ≡ some (w, rest)
    → Taken key ws w rest
unfolding take_waiter
take_waiter-Taken key [] w rest h = cc
take_waiter-Taken key (v ∷ vs) w rest h = elim (Bool-cases (str_eq v.fairness_key key)) [
  | inl hit ↦
      let h' = rw hit at h in
      record {
        before = [];
        after = vs;
        queue = ground arith;
        left = ground arith;
        same = ground (arith, eq_iff v.fairness_key key);
        first = tt;
      }
  | inr miss ↦ elim (Option-cases (take_waiter key vs)) [
    | inl gone ↦ cc (rw (miss, gone) at h)
    | inr ((x, xs), found) ↦
        let h' = rw (miss, found) at h in
        let t = take_waiter-Taken key vs x xs found in
        record {
          before = v ∷ t.before;
          after = t.after;
          queue = ground (arith, t.queue);
          left = ground (arith, t.left);
          same = ground (arith, t.same);
          first = (λ e. cc (rw (e, eq_refl key) at miss), t.first);
        }
  ]
]

pub take_waiter_total :
    (key : String) (ws : List Waiter)
    → Any (HasKey key) ws
    → (w : Waiter) × (rest : List Waiter) × (take_waiter key ws ≡ some (w, rest))
unfolding take_waiter
take_waiter_total key [] h = absurd h
take_waiter_total key (v ∷ vs) (inl h) = (v, vs, rw (h, eq_refl key))
take_waiter_total key (v ∷ vs) (inr h) = elim (Bool-cases (str_eq v.fairness_key key)) [
  | inl hit ↦ (v, vs, rw hit)
  | inr miss ↦ let (w, rest, e) = take_waiter_total key vs h in (w, v ∷ rest, rw (miss, e))
]

queue_keys-nonempty : (ws : List Waiter) → ws ≢ [] → 0 < length (queue_keys ws)
unfolding queue_keys unique_keys
queue_keys-nonempty [] h = absurd (h refl)
queue_keys-nonempty (w ∷ ws) h = omega arith

mod_lt : (a n : ℕ) → 0 < n → a % n < n
mod_lt a n h = omega arith

-- A waiting queue always has a next waiter.
pub choose_total :
    (s : Scheduler)
    → s.waiters ≢ []
    → (w : Waiter) × (rest : List Waiter) × (choose s ≡ some (w, rest))
unfolding choose next_key
choose_total s h =
    let keys = queue_keys s.waiters in
    let (key, e) =
      get_elem?-lt keys (turn keys s.last_granted_key % length keys)
        (mod_lt _ _ (queue_keys-nonempty s.waiters h)) in
    let (w, rest, f) = take_waiter_total key s.waiters (queue_keys-waiter key s.waiters _ e) in
    (w, rest, rw (e, choose, next_key) f)
