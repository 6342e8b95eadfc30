-- ===== src/Writes/Permits.antt =====
-- src/workflowWriteCoordinator.ts: the permits that the operations of the coordinator keep count of.
use workflow_mcp.Common.{
  ℕ, suc, ◌+◌, ◌-◌, ◌≡◌, refl, sym, ◌∙◌, inl, inr, Bool, true, false, not, ◌||◌, Option, none, some,
  [], arith, Bool-cases, ◌==◌,
}
use workflow_mcp.Writes.{
  Coordinator, check_callback, verify_owned, is_none, assert_writable, leave, verified,
}

-- Nothing but the gate changed, and it did not open.
pub record Closes (c d : Coordinator) : Type 0 where
  pub active : d.active ≡ c.active
  pub waiters : d.drain_waiters ≡ c.drain_waiters
  pub gate : d.admitting ≡ true → c.admitting ≡ true

pub same_coordinator : (c : Coordinator) → Closes c c
same_coordinator c = record { active = refl; waiters = refl; gate = λ p. p }

check_callback-Closes :
    (owned : ℕ → Bool) (callback : Option ℕ) (c : Coordinator)
    → Closes c (check_callback owned callback c).1
check_callback-Closes owned none c = same_coordinator c
check_callback-Closes owned (some callback) c = elim (Bool-cases (owned callback)) [
  | inl p ↦ rw p (same_coordinator c)
  | inr p ↦ rw p (record { active = refl; waiters = refl; gate = λ q. cc })
]

pub verified-Closes :
    (owned : ℕ → Bool) (succeeded : Bool) (c : Coordinator) → Closes c (verified owned succeeded c)
unfolding verify_owned
verified-Closes owned true c = check_callback-Closes owned c.assert_owned c
verified-Closes owned false c = same_coordinator c

pub assert_writable-Closes :
    (owned : ℕ → Bool) (c : Coordinator) → Closes c (assert_writable owned c).1
unfolding assert_writable verify_owned
assert_writable-Closes owned c = elim (Bool-cases (not c.ever_activated)) [
  | inl p ↦ rw p (same_coordinator c)
  | inr p ↦ elim (Bool-cases (not c.admitting || is_none c.assert_owned)) [
    | inl q ↦ rw (p, q) (same_coordinator c)
    | inr q ↦ rw (p, q) (check_callback-Closes owned c.assert_owned c)
  ]
]

-- A write that is let in finds the gate open.
pub assert_writable-none :
    (owned : ℕ → Bool) (c : Coordinator)
    → (assert_writable owned c).0 ≡ none
    → ((assert_writable owned c).1 ≡ c) × (c.admitting ≡ true)
unfolding assert_writable verify_owned
assert_writable-none owned c h = elim (Bool-cases (not c.ever_activated)) [
  | inl p ↦ cc (rw (p, assert_writable) at h)
  | inr p ↦ elim (Bool-cases (not c.admitting || is_none c.assert_owned)) [
    | inl q ↦ cc (rw (p, q, assert_writable) at h)
    | inr q ↦ (
      rw (p, q, assert_writable)
          (kept c.assert_owned (rw (p, q, assert_writable, verify_owned) at h)),
      ground arith,
    )
  ]
]
  where
    kept :
        (callback : Option ℕ)
        → (check_callback owned callback c).0 ≡ none
        → (check_callback owned callback c).1 ≡ c
    kept none e = refl
    kept (some callback) e = elim (Bool-cases (owned callback)) [
      | inl p ↦ rw p refl
      | inr p ↦ cc (rw p at e)
    ]

-- The coordinator counts `n` writers, and a drain waits only behind a shut gate for one of them.
pub record Counts (n : ℕ) (c : Coordinator) : Type 0 where
  pub permits : c.active ≡ n
  pub open_gate : c.admitting ≡ true → c.drain_waiters ≡ []
  pub idle : c.active ≡ 0 → c.drain_waiters ≡ []

pub Closes-Counts : (n : ℕ) (c d : Coordinator) → Closes c d → Counts n c → Counts n d
Closes-Counts n c d e k = record {
  permits = e.active ∙ k.permits;
  open_gate = λ p. e.waiters ∙ k.open_gate (e.gate p);
  idle = λ p. e.waiters ∙ k.idle (sym e.active ∙ p);
}

pub enters-Counts :
    (n : ℕ) (c : Coordinator)
    → c.admitting ≡ true
    → Counts n c
    → Counts (suc n) (record c { active = c.active + 1 })
enters-Counts n c p k = record {
  permits = omega (arith, k.permits);
  open_gate = k.open_gate;
  idle = λ q. absurd (omega (arith, q));
}

pub leave-Counts : (n : ℕ) (c : Coordinator) → Counts (suc n) c → Counts n (leave c).1
unfolding leave
leave-Counts n c k = elim (Bool-cases (c.active - 1 == 0)) [
  | inl p ↦
      rw p (record { permits = omega (arith, k.permits); open_gate = λ q. refl; idle = λ q. refl })
  | inr p ↦ rw p (record {
    permits = omega (arith, k.permits);
    open_gate = k.open_gate;
    idle = λ q. absurd (ground (arith, q));
  })
]
