-- ===== src/State/Isolation.antt =====
-- src/workflowState.ts: an event about one agent leaves every other agent as it was.
use workflow_mcp.Common.{
  ◌≡◌, refl, sym, ◌∙◌, ap, subst, ◌≢◌, inl, inr, String, Bool, true, false, Option, none, some,
  List, [], ◌∷◌, ◌++◌, arith, All, Pairwise, All-map, Pairwise-append_one, any-false, other_text,
  find, find-set_ne, str_eq-ne, eq_iff, Bool-cases, Option-cases, set, any, Result, ok, >>=-eq-ok,
  throw_if, throw_if-ok, modify_first, modify_first-Modifies, sort_by, insert_by, All-sort_by,
}
use workflow_mcp.Events.{AgentAdmitted, AgentOutcome, AgentEvent, EventBody, WorkflowEvent}
use workflow_mcp.State.Snapshot.{WorkflowAgentSnapshot, WorkflowSnapshot}
use workflow_mcp.State.Update.{ReduceError, has_agent_id, update_agent, update_attempt}
use workflow_mcp.State.Derive.{finalize_derived_state}
use workflow_mcp.State.Handlers.Admission.{admit_agent, sort_agents, new_agent}
use workflow_mcp.State.Handlers.Settlement.{
  settle_attempt, apply_agent_outcome, apply_reused_coverage_gap, reuse_agent,
}
use workflow_mcp.State.Handlers.Agent.{reduce_agent}
use workflow_mcp.State.Frame.{reuse_agent-cases}
use workflow_mcp.State.Agents.{Evolves, AgentsWell}
use workflow_mcp.State.Agents.Steps.{join_phase-agents}
use workflow_mcp.State.Agents.Changes.{Evolves-fields, with_attempt-Evolves, change_agent-Evolves}
use workflow_mcp.State.Attempts.Changes.{same_fields}
use workflow_mcp.State.Reduce.{apply_event, reduce_workflow_state}
use workflow_mcp.State.Guards.{advanced, reduce_workflow_state-Reduced}

-- The agent that a reader finds under an identity.
abbrev pub agent_of : String → WorkflowSnapshot → Option WorkflowAgentSnapshot
agent_of id s = find (has_agent_id id) s.agents

update_agent-others :
    (id other : String) (update : WorkflowAgentSnapshot → Result ReduceError WorkflowAgentSnapshot)
    (s t : WorkflowSnapshot)
    → other ≢ id
    → ((x y : WorkflowAgentSnapshot) → update x ≡ ok y → Evolves x y)
    → update_agent id update s ≡ ok t
    → agent_of other t ≡ agent_of other s
unfolding update_agent
update_agent-others id other update s t n same h =
    let (agents, modified, e) = >>=-eq-ok (modify_first _ _ _ update s.agents) _ h in
    let (i, x, y, at, found, hit, changed, e') =
      modify_first-Modifies _ _ _ update s.agents agents modified in
    let agents' : t.agents ≡ set s.agents i y = ground arith in
    let y-id : y.id ≡ id = (same x y changed).id ∙ (eq_iff x.id id).0 hit in
    ap (find (has_agent_id other)) agents'
    ∙ find-set_ne (has_agent_id id) (has_agent_id other) s.agents i y at
        (λ z p. str_eq-ne z.id other (λ q. n (sym q ∙ (eq_iff z.id id).0 p)))
        (str_eq-ne y.id other (λ q. n (sym q ∙ y-id)))

settle_attempt-others :
    (id other : String) (attempt_id : Option String) (outcome : AgentOutcome) (timestamp : String)
    (s t : WorkflowSnapshot)
    → other ≢ id
    → settle_attempt id attempt_id outcome timestamp s ≡ ok t
    → agent_of other t ≡ agent_of other s
unfolding settle_attempt update_attempt
settle_attempt-others id other none outcome timestamp s t n h =
    let e : t.agents ≡ s.agents = ground arith in ap (find (has_agent_id other)) e
settle_attempt-others id other (some attempt_id) outcome timestamp s t n h =
    update_agent-others id other _ s t n
      (with_attempt-Evolves attempt_id _
        (λ x y e. same_fields x y (ground arith) (ground arith) (ground arith)))
      h

apply_agent_outcome-others :
    (id other : String) (attempt_id : Option String) (outcome : AgentOutcome) (timestamp : String)
    (s t : WorkflowSnapshot)
    → other ≢ id
    → apply_agent_outcome id attempt_id outcome timestamp s ≡ ok t
    → agent_of other t ≡ agent_of other s
unfolding apply_agent_outcome
apply_agent_outcome-others id other attempt_id outcome timestamp s t n h =
    let (next, done, h') = >>=-eq-ok (update_agent id _ s) _ h in
    settle_attempt-others id other attempt_id outcome timestamp next t n h'
    ∙ update_agent-others id other _ s next n
        (λ x y e. Evolves-fields x y (ground arith) (ground arith) (ground arith) (ground arith))
        done

fill_gap-others :
    (id other : String) (outcome : AgentOutcome) (timestamp : String) (s t : WorkflowSnapshot)
    → other ≢ id
    → apply_reused_coverage_gap id outcome timestamp s ≡ ok t
    → agent_of other t ≡ agent_of other s
unfolding apply_reused_coverage_gap
fill_gap-others id other outcome timestamp s t n h = elim (Option-cases outcome.coverage_gap) [
  | inl missing ↦ cc (rw (missing, apply_reused_coverage_gap) at h)
  | inr (gap, present) ↦
      update_agent-others id other _ s t n
        (λ x y e. Evolves-fields x y (ground arith) (ground arith) (ground arith) (ground arith))
        (rw (present, apply_reused_coverage_gap) at h)
]

-- Sorting a list with distinct identities does not change what is found under one.
find-insert_by_miss :
    (q : WorkflowAgentSnapshot → Bool) (x : WorkflowAgentSnapshot) (ys : List WorkflowAgentSnapshot)
    → q x ≡ false
    → find q (insert_by (λ a. a.call_index) x ys) ≡ find q ys
unfolding insert_by
find-insert_by_miss q x [] h = rw h
find-insert_by_miss q x (y ∷ ys) h = ground (arith, find-insert_by_miss q x ys h)

find-insert_by_hit :
    (q : WorkflowAgentSnapshot → Bool) (x : WorkflowAgentSnapshot) (ys : List WorkflowAgentSnapshot)
    → q x ≡ true
    → All (λ y. q y ≡ false) ys
    → find q (insert_by (λ a. a.call_index) x ys) ≡ some x
unfolding insert_by
find-insert_by_hit q x [] h a = rw h
find-insert_by_hit q x (y ∷ ys) h a = ground (arith, find-insert_by_hit q x ys h a.1)

pub find-sort_agents :
    (id : String) (xs : List WorkflowAgentSnapshot)
    → Pairwise (λ a b. a.id ≢ b.id) xs
    → find (has_agent_id id) (sort_agents xs) ≡ find (has_agent_id id) xs
unfolding sort_by
find-sort_agents id [] d = refl
find-sort_agents id (x ∷ xs) d = elim (Bool-cases (has_agent_id id x)) [
  | inl hit ↦ rw hit (
      find-insert_by_hit (has_agent_id id) x (sort_agents xs) hit (
        All-sort_by _ (λ y. has_agent_id id y ≡ false) xs
          (All-map (λ y n. str_eq-ne y.id id (λ e. n ((eq_iff x.id id).0 hit ∙ sym e))) xs d.0)))
  | inr miss ↦
      rw miss
        (find-insert_by_miss (has_agent_id id) x (sort_agents xs) miss ∙ find-sort_agents id xs d.1)
]

find-append_miss :
    (q : WorkflowAgentSnapshot → Bool) (xs : List WorkflowAgentSnapshot) (x : WorkflowAgentSnapshot)
    → q x ≡ false
    → find q (xs ++ x ∷ []) ≡ find q xs
find-append_miss q [] x h = rw h
find-append_miss q (y ∷ ys) x h = ground (arith, find-append_miss q ys x h)

admit_agent-others :
    (timestamp id other : String) (phase_id : Option String) (payload : AgentAdmitted)
    (s t : WorkflowSnapshot)
    → AgentsWell s.agents
    → other ≢ id
    → admit_agent timestamp id phase_id payload s ≡ ok t
    → agent_of other t ≡ agent_of other s
unfolding admit_agent
admit_agent-others timestamp id other phase_id payload s t w n h =
    let (u, fresh, h1) = >>=-eq-ok (throw_if (any (has_agent_id id) s.agents) _) _ h in
    let (v, free, h2) = >>=-eq-ok (throw_if (any _ s.agents) _) _ h1 in
    let agent = new_agent timestamp id phase_id payload in
    let distinct =
      Pairwise-append_one (λ a b. a.id ≢ b.id) s.agents agent w.ids
        (All-map (λ a m. other_text a.id id m) s.agents
          (any-false _ s.agents (throw_if-ok _ _ u fresh))) in
    ap (find (has_agent_id other)) (join_phase-agents phase_id id _ t h2)
    ∙ find-sort_agents other (s.agents ++ agent ∷ []) distinct
    ∙ find-append_miss (has_agent_id other) s.agents agent (str_eq-ne id other (λ e. n (sym e)))

reuse_agent-others :
    (timestamp id other : String) (attempt_id : Option String) (outcome : AgentOutcome)
    (s t : WorkflowSnapshot)
    → other ≢ id
    → reuse_agent timestamp id attempt_id outcome s ≡ ok t
    → agent_of other t ≡ agent_of other s
reuse_agent-others timestamp id other attempt_id outcome s t n h =
    elim (reuse_agent-cases timestamp id attempt_id outcome s t h) [
      | inl e ↦ fill_gap-others id other outcome timestamp s t n e
      | inr e ↦ apply_agent_outcome-others id other none outcome timestamp s t n e
    ]

reduce_agent-others :
    (timestamp id other : String) (event : AgentEvent) (s t : WorkflowSnapshot)
    → AgentsWell s.agents
    → other ≢ id
    → reduce_agent timestamp id event s ≡ ok t
    → agent_of other t ≡ agent_of other s
unfolding reduce_agent
reduce_agent-others timestamp id other (AgentEvent.admitted phase_id payload) s t w n h =
    admit_agent-others timestamp id other phase_id payload s t w n h
reduce_agent-others timestamp id other (AgentEvent.reused attempt_id outcome) s t w n h =
    reuse_agent-others timestamp id other attempt_id outcome s t n h
reduce_agent-others timestamp id other (AgentEvent.completed attempt_id outcome) s t w n h =
    apply_agent_outcome-others id other attempt_id outcome timestamp s t n h
reduce_agent-others timestamp id other event s t w n h =
    update_agent-others id other _ s t n (change_agent-Evolves timestamp event) h

-- An accepted event about one agent leaves what is found under the identity of every other agent
-- as it was, in a snapshot whose agents are well formed.
pub reduce_workflow_state-others :
    (s : WorkflowSnapshot) (event : WorkflowEvent) (id other : String) (body : AgentEvent)
    (t : WorkflowSnapshot)
    → AgentsWell s.agents
    → event.body ≡ EventBody.agent id body
    → other ≢ id
    → reduce_workflow_state s event ≡ ok t
    → agent_of other t ≡ agent_of other s
unfolding finalize_derived_state apply_event
reduce_workflow_state-others s event id other body t w about n h =
    let r = reduce_workflow_state-Reduced s event t h in
    ap (agent_of other) r.derived
    ∙ reduce_agent-others event.timestamp id other body (advanced s event) r.next w n
        (subst (λ b. apply_event event b (advanced s event) ≡ ok r.next) about r.applied)
