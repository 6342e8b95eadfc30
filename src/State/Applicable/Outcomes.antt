-- ===== src/State/Applicable/Outcomes.antt =====
-- When src/workflowState.ts accepts the outcome of an agent.
use mathlib.Core.Logic.Iff
use workflow_mcp.Common.{
  ◌≡◌, refl, sym, ◌∙◌, subst, ◌↔◌, String, false, not, Option, none, some, arith, Any, Any-map,
  Along, Along-set, Along-flip, Any-Along, ok, IsOk, IsOk-value, IsOk-map, IsOk-throw_if, >>=-eq-ok,
  modify_first, modify_first-Modifies, modify_first-IsOk_of_Any, if◌then◌else◌,
}
use workflow_mcp.Events.{AgentCoverageGapDisposition, AgentOutcome, OutcomeSource}
use workflow_mcp.State.Snapshot.{WorkflowAttemptSnapshot, WorkflowAgentSnapshot, WorkflowSnapshot}
use workflow_mcp.State.Update.{
  reuse_outside_journal, reuse_with_attempt, update_agent, update_attempt, with_attempt,
  change_attempt,
}
use workflow_mcp.State.Derive.{is_journal}
use workflow_mcp.State.Handlers.Settlement.{
  finish_agent, finish_attempt, settle_attempt, apply_agent_outcome, apply_reused_coverage_gap,
  reuse_agent, is_some,
}
use workflow_mcp.State.Agents.{AgentsWell, evolve, AgentsStep-AgentsWell, update_agent-Evolved}
use workflow_mcp.State.Agents.Changes.{Evolves-fields}
use workflow_mcp.State.Applicable.{NamesAttempt, HasAttempt}
use workflow_mcp.State.Applicable.Laws.{update_agent_iff}

-- The second agent has the identity and the attempts of the first.
abbrev Kept : WorkflowAgentSnapshot → WorkflowAgentSnapshot → Type 0
Kept x y = (y.id ≡ x.id) × (y.attempts ≡ x.attempts)

update_agent-Kept :
    (id : String) (f : WorkflowAgentSnapshot → WorkflowAgentSnapshot) (s t : WorkflowSnapshot)
    → ((x : WorkflowAgentSnapshot) → Kept x (f x))
    → update_agent id (λ a. ok (f a)) s ≡ ok t
    → Along Kept s.agents t.agents
unfolding update_agent
update_agent-Kept id f s t same h =
    let (agents, modified, e) = >>=-eq-ok (modify_first _ _ _ (λ a. ok (f a)) s.agents) _ h in
    let (i, x, y, at, found, hit, changed, e') =
      modify_first-Modifies _ _ _ (λ a. ok (f a)) s.agents agents modified in
    let y' : f x ≡ y = ground arith in
    subst (Along Kept s.agents) (sym e' ∙ ground arith)
      (Along-set Kept (λ a. (refl, refl)) s.agents i x y found (subst (Kept x) y' (same x)))

abbrev Named : String → String → WorkflowAgentSnapshot → Type 0
Named id attempt_id a = (a.id ≡ id) × HasAttempt attempt_id a

Named-Kept :
    (id attempt_id : String) (x y : WorkflowAgentSnapshot)
    → Kept x y
    → Named id attempt_id x
    → Named id attempt_id y
Named-Kept id attempt_id x y k n = (k.0 ∙ n.0, rw k.1 n.1)

update_attempt_iff :
    (id attempt_id : String) (f : WorkflowAttemptSnapshot → WorkflowAttemptSnapshot)
    (s : WorkflowSnapshot)
    → AgentsWell s.agents
    → IsOk (update_attempt id attempt_id (λ t. ok (f t)) s) ↔ Any (Named id attempt_id) s.agents
unfolding update_attempt with_attempt change_attempt
update_attempt_iff id attempt_id f s w = update_agent_iff id (HasAttempt attempt_id) _ s w (λ x a.
    Iff.trans (IsOk-map _ _)
      (modify_first-IsOk_of_Any (λ t. t.id) _ _ attempt_id f x.attempts a.ids))

known_agent_iff :
    (id : String) (f : WorkflowAgentSnapshot → WorkflowAgentSnapshot) (s : WorkflowSnapshot)
    → AgentsWell s.agents
    → IsOk (update_agent id (λ a. ok (f a)) s) ↔ Any (λ a. a.id ≡ id) s.agents
known_agent_iff id f s w =
    let h = update_agent_iff id (λ a. Unit {0}) (λ a. ok (f a)) s w (λ x a. ((λ u. u), (λ u. u))) in
    ((λ k. Any-map (λ a p. p.0) s.agents (h.0 k)), (λ k. h.1 (Any-map (λ a p. (p, tt)) s.agents k)))

pub apply_agent_outcome_iff :
    (id : String) (attempt_id : Option String) (outcome : AgentOutcome) (timestamp : String)
    (s : WorkflowSnapshot)
    → AgentsWell s.agents
    → IsOk (apply_agent_outcome id attempt_id outcome timestamp s)
      ↔ Any (λ a. (a.id ≡ id) × NamesAttempt attempt_id a) s.agents
unfolding apply_agent_outcome settle_attempt
apply_agent_outcome_iff id none outcome timestamp s w =
    Iff.trans (IsOk-map _ (λ next. next))
      (update_agent_iff id (λ a. Unit {0}) _ s w (λ x a. ((λ u. u), (λ u. u))))
apply_agent_outcome_iff id (some attempt_id) outcome timestamp s w = (forward, backward)
  where
    finished : WorkflowSnapshot → Type 0
    finished next = update_agent id (λ a. ok (finish_agent timestamp outcome a)) s ≡ ok next

    well : (next : WorkflowSnapshot) → finished next → AgentsWell next.agents
    well next e =
        AgentsStep-AgentsWell s.agents next.agents
          (evolve (
            update_agent-Evolved id _ s next
              (λ x y k.
                Evolves-fields x y (ground arith) (ground arith) (ground arith) (ground arith))
              e))
          w

    forward :
        IsOk (apply_agent_outcome id (some attempt_id) outcome timestamp s)
        → Any (λ a. (a.id ≡ id) × HasAttempt attempt_id a) s.agents
    forward h =
        let (t, e) = IsOk-value _ h in
        let (next, done, e') =
          >>=-eq-ok (update_agent id (λ a. ok (finish_agent timestamp outcome a)) s) _ e in
        Any-Along (λ y x. Kept x y) (Named id attempt_id)
          (λ y x k n. (sym k.0 ∙ n.0, rw (← k.1) n.1)) next.agents s.agents
          (Along-flip Kept s.agents next.agents
            (update_agent-Kept id _ s next (λ x. (refl, refl)) done))
          ((update_attempt_iff id attempt_id _ next (well next done)).0 (subst IsOk (sym e') tt))

    backward :
        Any (λ a. (a.id ≡ id) × HasAttempt attempt_id a) s.agents
        → IsOk (apply_agent_outcome id (some attempt_id) outcome timestamp s)
    backward h =
        let known =
          (known_agent_iff id (finish_agent timestamp outcome) s w).1
            (Any-map (λ a p. p.0) s.agents h) in
        let (next, done) = IsOk-value _ known in
        let named =
          Any-Along Kept (Named id attempt_id) (Named-Kept id attempt_id) s.agents next.agents
            (update_agent-Kept id _ s next (λ x. (refl, refl)) done) h in
        rw (done, apply_agent_outcome)
          ((update_attempt_iff id attempt_id (finish_attempt timestamp outcome) next
              (well next done)).1
            named)

pub reuse_agent_iff :
    (timestamp id : String) (attempt_id : Option String) (outcome : AgentOutcome)
    (s : WorkflowSnapshot)
    → AgentsWell s.agents
    → IsOk (reuse_agent timestamp id attempt_id outcome s) ↔ (
        (outcome.source ≡ OutcomeSource.journal)
        × (attempt_id ≡ none)
        × Any (λ a. a.id ≡ id) s.agents)
unfolding reuse_agent apply_reused_coverage_gap apply_agent_outcome settle_attempt
reuse_agent_iff timestamp id attempt_id outcome s w =
    let source = IsOk-throw_if (not (is_journal outcome.source)) reuse_outside_journal _ in
    let free = IsOk-throw_if (is_some attempt_id) reuse_with_attempt _ in
    let update = body outcome.coverage_gap refl in
    (
      (λ h. (
        journal outcome.source (source.0 h).0,
        absent attempt_id (free.0 (source.0 h).1).0,
        update.0 (free.0 (source.0 h).1).1,
      )),
      (λ h. source.1 (rw h.0, free.1 (rw h.1, update.1 h.2))),
    )
  where
    journal : (o : OutcomeSource) → not (is_journal o) ≡ false → o ≡ OutcomeSource.journal
    journal o h = ground arith

    absent : (o : Option String) → is_some o ≡ false → o ≡ none
    absent o h = ground arith

    body :
        (gap : Option AgentCoverageGapDisposition)
        → outcome.coverage_gap ≡ gap
        → IsOk (
            if is_some outcome.coverage_gap
            then apply_reused_coverage_gap id outcome timestamp s
            else apply_agent_outcome id none outcome timestamp s)
          ↔ Any (λ a. a.id ≡ id) s.agents
    body none e =
        rw (e, apply_reused_coverage_gap)
          (Iff.trans (IsOk-map _ (λ next. next)) (known_agent_iff id _ s w))
    body (some gap) e = rw (e, apply_reused_coverage_gap) (known_agent_iff id _ s w)
