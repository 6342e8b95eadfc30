-- ===== src/State/Applicable.antt =====
-- Which events src/workflowState.ts accepts, by what the snapshot has to hold.
pub mod Laws
pub mod Outcomes
pub mod Events
use workflow_mcp.Common.{◌≡◌, ◌≢◌, String, Option, none, some, List, [], ◌∷◌, All, Any}
use workflow_mcp.Events.{
  OutcomeSource, AttemptEvent, AgentEvent, PhaseEvent, EventBody, WorkflowActivityDetails,
}
use workflow_mcp.State.Snapshot.{
  WorkflowAttemptSnapshot, WorkflowAgentSnapshot, WorkflowPhaseSnapshot, WorkflowSnapshot,
}

abbrev pub KnowsActivity : String → WorkflowAttemptSnapshot → Type 0
KnowsActivity id attempt = Any (λ a. a.details.activity_id ≡ id) attempt.activities

-- An activity starts once, and only a started one is updated or completed.
abbrev pub AttemptAllows : AttemptEvent → WorkflowAttemptSnapshot → Type 0
AttemptAllows (AttemptEvent.activity_started activity) attempt =
    All (λ a. a.details.activity_id ≢ activity.activity_id) attempt.activities
AttemptAllows (AttemptEvent.activity_updated patch) attempt =
    KnowsActivity patch.activity_id attempt
AttemptAllows (AttemptEvent.activity_completed patch) attempt =
    KnowsActivity patch.activity_id attempt
AttemptAllows _ attempt = Unit {0}

abbrev pub HasAttempt : String → WorkflowAgentSnapshot → Type 0
HasAttempt id agent = Any (λ t. t.id ≡ id) agent.attempts

-- An attempt that an event may name has to exist.
abbrev pub NamesAttempt : Option String → WorkflowAgentSnapshot → Type 0
NamesAttempt none agent = Unit {0}
NamesAttempt (some id) agent = HasAttempt id agent

-- An attempt starts once, under a number of its own.
abbrev pub AgentAllows : AgentEvent → WorkflowAgentSnapshot → Type 0
AgentAllows (AgentEvent.started attempt_id payload) agent =
    All (λ t. t.id ≢ attempt_id) agent.attempts
    × All (λ t. t.number ≢ payload.attempt_number) agent.attempts
AgentAllows (AgentEvent.failed attempt_id error retrying) agent = NamesAttempt attempt_id agent
AgentAllows (AgentEvent.cancelled attempt_id reason) agent = NamesAttempt attempt_id agent
AgentAllows (AgentEvent.recovery_required attempt_id error safety) agent =
    HasAttempt attempt_id agent
AgentAllows (AgentEvent.attempt attempt_id event) agent =
    Any (λ t. (t.id ≡ attempt_id) × AttemptAllows event t) agent.attempts
AgentAllows _ agent = Unit {0}

abbrev pub HasPhase : String → WorkflowSnapshot → Type 0
HasPhase id s = Any (λ p. p.id ≡ id) s.phases

abbrev pub NamesPhase : Option String → WorkflowSnapshot → Type 0
NamesPhase none s = Unit {0}
NamesPhase (some id) s = HasPhase id s

abbrev pub PhaseAllows : String → PhaseEvent → WorkflowSnapshot → Type 0
PhaseAllows id (PhaseEvent.discovered payload) s = All (λ p. p.id ≢ id) s.phases
PhaseAllows id _ s = HasPhase id s

-- An agent is admitted once, under a call index of its own, into a phase that was discovered;
-- only an outcome of the journal is reused, and by no attempt.
abbrev pub EventAllowed : EventBody → WorkflowSnapshot → Type 0
EventAllowed (EventBody.agent id (AgentEvent.admitted phase_id payload)) s =
    All (λ a. a.id ≢ id) s.agents
    × All (λ a. a.call_index ≢ payload.call_index) s.agents
    × NamesPhase phase_id s
EventAllowed (EventBody.agent id (AgentEvent.reused attempt_id outcome)) s =
    (outcome.source ≡ OutcomeSource.journal) × (attempt_id ≡ none) × Any (λ a. a.id ≡ id) s.agents
EventAllowed (EventBody.agent id (AgentEvent.completed attempt_id outcome)) s =
    Any (λ a. (a.id ≡ id) × NamesAttempt attempt_id a) s.agents
EventAllowed (EventBody.agent id event) s = Any (λ a. (a.id ≡ id) × AgentAllows event a) s.agents
EventAllowed (EventBody.phase id event) s = PhaseAllows id event s
EventAllowed _ s = Unit {0}
