-- ===== src/Runtime/Path/Ends.antt =====
-- How `run_whole_field_planner_graph` may end: the stop, its test and the terminal result.
use lang_sop.Base.{◌≡◌, Bool, true, false, Option, none, some, List, [], ◌∷◌}
use lang_sop.Digest.{Digest}
use lang_sop.Operators.Contracts.{OutcomeKind}
use lang_sop.Operators.Results.{OperatorRunResult, RequestInput}
use lang_sop.Operators.Runner.{run_contract_operator}
use lang_sop.Runtime.State.{GraphPhase, GraphNodeId, GraphValidationResult, accepted_result}
use lang_sop.Runtime.Checkpoints.{
  CheckpointEnvelope, CheckpointValidationResult, checkpoint_accepted, validate_checkpoint,
}
use lang_sop.Runtime.Runner.{
  GraphRunResult, Visits, trace_validation, operator_terminal_validation, graph_request_ref,
  terminal_result,
}
use lang_sop.Runtime.Path.{
  RunInput, is_success_kind, completion_validation, run_options, select_validation,
  coordination_validation, readiness_validation, packet_validation, run_whole_field_planner_graph,
}

-- The last node that a run visits before the terminal one.
pub data Stop : Type 0 where
  at_packet at_readiness at_coordination at_select at_trace at_completion : Stop

abbrev pub phases_to : Stop → List GraphPhase
phases_to at_packet = []
phases_to at_readiness = GraphPhase.readiness_guard ∷ []
phases_to at_coordination = GraphPhase.readiness_guard ∷ GraphPhase.coordination_guard ∷ []
phases_to at_select =
    GraphPhase.readiness_guard ∷ GraphPhase.coordination_guard ∷ GraphPhase.operator_contract_select
    ∷ []
phases_to at_trace =
    GraphPhase.readiness_guard ∷ GraphPhase.coordination_guard ∷ GraphPhase.operator_contract_select
    ∷ GraphPhase.operator_invocation ∷ GraphPhase.trace_recording ∷ []
phases_to at_completion =
    GraphPhase.readiness_guard ∷ GraphPhase.coordination_guard ∷ GraphPhase.operator_contract_select
    ∷ GraphPhase.operator_invocation ∷ GraphPhase.trace_recording ∷ GraphPhase.completion_gate ∷ []

abbrev pub nodes_to : Stop → List GraphNodeId
nodes_to at_packet = []
nodes_to at_readiness = GraphNodeId.readiness_guard ∷ []
nodes_to at_coordination = GraphNodeId.readiness_guard ∷ GraphNodeId.coordination_guard ∷ []
nodes_to at_select =
    GraphNodeId.readiness_guard ∷ GraphNodeId.coordination_guard
    ∷ GraphNodeId.operator_contract_select ∷ []
nodes_to at_trace =
    GraphNodeId.readiness_guard ∷ GraphNodeId.coordination_guard
    ∷ GraphNodeId.operator_contract_select ∷ GraphNodeId.operator_invocation
    ∷ GraphNodeId.trace_recording ∷ []
nodes_to at_completion =
    GraphNodeId.readiness_guard ∷ GraphNodeId.coordination_guard
    ∷ GraphNodeId.operator_contract_select ∷ GraphNodeId.operator_invocation
    ∷ GraphNodeId.trace_recording ∷ GraphNodeId.completion_gate ∷ []

-- The visits up to a stop; the first phase is that of the state.
abbrev pub trail : GraphPhase → Stop → Visits
trail p s = record { phases = p ∷ phases_to s; nodes = GraphNodeId.packet_intake ∷ nodes_to s }

abbrev pub IsRefused : GraphValidationResult → Type 0
IsRefused v = v.accepted ≡ false

abbrev pub Holds : GraphValidationResult → Type 0
Holds v = v.accepted ≡ true

module _ (digest : Digest) (x : RunInput) where
  abbrev pub checked : GraphRunResult
  checked = run_whole_field_planner_graph digest x

  abbrev pub operator_run : RequestInput → OperatorRunResult
  operator_run q = run_contract_operator digest x.operator_contract (run_options digest x) q

  abbrev pub check : CheckpointEnvelope → CheckpointValidationResult
  check c = validate_checkpoint c x.policy.accepted_freshness_basis_ref_set

  abbrev pub checkpoint_passes : Option CheckpointEnvelope → Bool
  checkpoint_passes none = true
  checkpoint_passes (some c) = checkpoint_accepted (check c)

  -- What a completed run has passed.
  pub record Completed (q : RequestInput) : Type 0 where
    pub packet : Holds (packet_validation digest x)
    pub checkpoint : checkpoint_passes x.checkpoint ≡ true
    pub readiness : Holds (readiness_validation digest x)
    pub coordination : Holds (coordination_validation digest x)
    pub requested : x.operator_request ≡ some q
    pub select : Holds (select_validation digest x)
    pub traced : Holds (trace_validation (operator_run q))
    pub succeeded : (operator_run q).outcome_kind ≡ OutcomeKind.success
    pub completion : Holds (completion_validation digest x)

  -- The ways in which a run may end, each with the test that ends it.
  pub data Ending : Type 0 where
    packet_refused : IsRefused (packet_validation digest x) → Ending
    checkpoint_refused :
        (c : CheckpointEnvelope) → x.checkpoint ≡ some c → IsRefused (check c).validation → Ending
    readiness_refused : IsRefused (readiness_validation digest x) → Ending
    coordination_refused : IsRefused (coordination_validation digest x) → Ending
    select_refused : IsRefused (select_validation digest x) → Ending
    trace_refused :
        (q : RequestInput)
        → x.operator_request ≡ some q
        → IsRefused (trace_validation (operator_run q))
        → Ending
    operator_refused :
        (q : RequestInput)
        → x.operator_request ≡ some q
        → is_success_kind (operator_run q).outcome_kind ≡ false
        → Ending
    completion_refused :
        (q : RequestInput)
        → x.operator_request ≡ some q
        → IsRefused (completion_validation digest x)
        → Ending
    completed : (q : RequestInput) → Completed q → Ending

  abbrev pub stop_of : Ending → Stop
  stop_of (packet_refused h) = at_packet
  stop_of (checkpoint_refused c e h) = at_packet
  stop_of (readiness_refused h) = at_readiness
  stop_of (coordination_refused h) = at_coordination
  stop_of (select_refused h) = at_select
  stop_of (trace_refused q e h) = at_trace
  stop_of (operator_refused q e h) = at_trace
  stop_of (completion_refused q e h) = at_completion
  stop_of (completed q h) = at_completion

  abbrev pub validation_of : Ending → GraphValidationResult
  validation_of (packet_refused h) = packet_validation digest x
  validation_of (checkpoint_refused c e h) = (check c).validation
  validation_of (readiness_refused h) = readiness_validation digest x
  validation_of (coordination_refused h) = coordination_validation digest x
  validation_of (select_refused h) = select_validation digest x
  validation_of (trace_refused q e h) = trace_validation (operator_run q)
  validation_of (operator_refused q e h) =
      operator_terminal_validation (operator_run q).outcome_kind
  validation_of (completion_refused q e h) = completion_validation digest x
  validation_of (completed q h) = accepted_result

  abbrev pub run_of : Ending → Option OperatorRunResult
  run_of (trace_refused q e h) = some (operator_run q)
  run_of (operator_refused q e h) = some (operator_run q)
  run_of (completion_refused q e h) = some (operator_run q)
  run_of (completed q h) = some (operator_run q)
  run_of _ = none

  abbrev pub checkpoint_of : Ending → Option CheckpointValidationResult
  checkpoint_of (checkpoint_refused c e h) = some (check c)
  checkpoint_of _ = none

  unfoldable pub ending_result : Ending → GraphRunResult
  ending_result e =
      terminal_result digest (graph_request_ref x.operator_request) x.graph_state (validation_of e)
        (trail x.graph_state.graph_phase (stop_of e)) (run_of e) (checkpoint_of e)

  abbrev pub EndsIn : GraphRunResult → Type 0
  EndsIn r = (e : Ending) × (r ≡ ending_result e)

  abbrev pub at : Stop → Visits
  at = trail x.graph_state.graph_phase
