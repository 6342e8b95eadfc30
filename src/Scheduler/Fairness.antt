-- ===== src/Scheduler/Fairness.antt =====
-- src/workConservingScheduler.ts: the next grant goes to another key, where another key waits.
use workflow_mcp.Common.{
  ℕ, zero, suc, ◌%◌, ◌<◌, ◌≡◌, refl, sym, ◌∙◌, ap, subst, inl, inr, String, false, some, List, [],
  ◌∷◌, arith, length, get_elem?, find_index, find_index-some, find_index-none, get_elem?-injective,
  All, Any, Any-get_elem?, All-get_elem?, str_eq, eq_iff, eq_refl, Option-cases,
}
use native.Mathlib.Decide.{dec_lt}
use native.Mathlib.Nat.{mod-eq_of_lt, mod_self}
use workflow_mcp.Scheduler.{Waiter, Scheduler, queue_keys, turn, next_key, choose}
use workflow_mcp.Scheduler.Turns.{
  HasKey, Taken, take_waiter-Taken, queue_keys_complete, queue_keys-distinct,
}
use workflow_mcp.Scheduler.Invariant.{choose-Taken}

-- The key of the waiter that is chosen stands at the next turn.
choose-next_key :
    (s : Scheduler) (w : Waiter) (rest : List Waiter)
    → choose s ≡ some (w, rest)
    → next_key s.waiters s.last_granted_key ≡ some w.fairness_key
unfolding choose
choose-next_key s w rest h = elim (Option-cases (next_key s.waiters s.last_granted_key)) [
  | inl gone ↦ cc (rw (gone, choose) at h)
  | inr (key, found) ↦
      let t = take_waiter-Taken key s.waiters w rest (rw (found, choose) at h) in
      found ∙ ap some (sym t.same)
]

-- If the turn comes round to the same key, it is the only one.
turn_alone :
    (keys : List String) (key : String) (i : ℕ)
    → find_index (λ k. str_eq k key) keys ≡ some i
    → ((a b : ℕ) → get_elem? keys a ≡ some key → get_elem? keys b ≡ some key → a ≡ b)
    → get_elem? keys (suc i % length keys) ≡ some key
    → length keys ≡ 1
turn_alone keys key i h once e =
    let (k, at, hit) = find_index-some (λ j. str_eq j key) keys i h in
    let at' : get_elem? keys i ≡ some key = at ∙ ap some ((eq_iff k key).0 hit) in
    let same : suc i % length keys ≡ i = once (suc i % length keys) i e at' in
    let within : i < length keys = get_elem?-below keys i at' in
    round_trip i (length keys) within same
  where
    get_elem?-below :
        (xs : List String) (j : ℕ) {x : String} → get_elem? xs j ≡ some x → j < length xs
    get_elem?-below [] j f = cc
    get_elem?-below (x ∷ xs) zero f = omega arith
    get_elem?-below (x ∷ xs) (suc j) f = omega (arith, get_elem?-below xs j f)

    round_trip : (a n : ℕ) → a < n → suc a % n ≡ a → n ≡ 1
    round_trip a n l f = elim (dec_lt (suc a) n) [
      | yes p ↦ absurd (omega (arith, mod-eq_of_lt p))
      | no p ↦ let e : suc a ≡ n = omega arith in omega (arith, ap (λ m. m % n) e, mod_self n)
    ]

one_key :
    (keys : List String) (x y : String)
    → length keys ≡ 1
    → Any (λ k. k ≡ x) keys
    → Any (λ k. k ≡ y) keys
    → x ≡ y
one_key [] x y h a b = absurd a
one_key (k ∷ []) x y h (inl a) (inl b) = sym a ∙ b
one_key (k ∷ []) x y h (inl a) (inr b) = absurd b
one_key (k ∷ []) x y h (inr a) b = absurd a
one_key (k ∷ j ∷ ks) x y h a b = absurd (omega arith)

every_key :
    (P : String → Type 0) (ws : List Waiter)
    → ((k : String) → Any (HasKey k) ws → P k)
    → All (λ v. P v.fairness_key) ws
every_key P [] f = tt
every_key P (v ∷ vs) f = (f v.fairness_key (inl refl), every_key P vs (λ k h. f k (inr h)))

-- The waiter chosen next is the first one of its key, and the others keep their order. Its key is the
-- one served last only if every waiter has that key.
pub choose_rotates :
    (s : Scheduler) (w : Waiter) (rest : List Waiter)
    → choose s ≡ some (w, rest)
    → Taken w.fairness_key s.waiters w rest
      × (s.last_granted_key ≡ some w.fairness_key → All (HasKey w.fairness_key) s.waiters)
unfolding next_key turn
choose_rotates s w rest h = (choose-Taken s w rest h, again)
  where
    keys : List String
    keys = queue_keys s.waiters

    again : s.last_granted_key ≡ some w.fairness_key → All (HasKey w.fairness_key) s.waiters
    again last = elim (Option-cases (find_index (λ k. str_eq k w.fairness_key) keys)) [
      | inl missing ↦
          let other =
            All-get_elem? (λ k. str_eq k w.fairness_key ≡ false) keys _
              (find_index-none _ keys missing) at in
          cc (rw (eq_refl w.fairness_key) at other)
      | inr (i, found) ↦
          let alone =
            turn_alone keys w.fairness_key i found
              (λ a b. get_elem?-injective keys a b w.fairness_key (queue_keys-distinct s.waiters))
              (rw (found, turn) at at) in
          every_key (λ k. k ≡ w.fairness_key) s.waiters
            (λ k waits.
              one_key keys k w.fairness_key alone (queue_keys_complete k s.waiters waits)
                (Any-get_elem? (λ j. j ≡ w.fairness_key) keys _ at refl))
    ]
      where
        at : get_elem? keys (turn keys (some w.fairness_key) % length keys) ≡ some w.fairness_key
        at =
            subst (λ l. next_key s.waiters l ≡ some w.fairness_key) last
              (choose-next_key s w rest h)
