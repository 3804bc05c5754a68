-- ===== src/Runtime/Path.antt =====
-- `run_whole_field_planner_graph` of src/langsop/runtime/graph_runner.py, one definition for each
-- stage between two returns. A stage that does not return calls the next one.
pub mod Ends
pub mod Stages
pub mod Accepted
pub mod Gates
pub mod Walks
pub mod Interruption
use lang_sop.Base.{
  String, Bool, not, ◌&&◌, Option, none, some, List, [], ◌∷◌, any, is_empty, if◌then◌else◌, ◌<>◌,
  true, false,
}
use lang_sop.Text.{has_part, lower}
use lang_sop.Digest.{Digest}
use lang_sop.Operators.Values.{Object}
use lang_sop.Operators.Contracts.{OutcomeKind, OperatorContract}
use lang_sop.Operators.Results.{OperatorFunction, OperatorRunResult, RequestInput}
use lang_sop.Operators.Runner.{RunOptions, default_options, run_contract_operator}
use lang_sop.Runtime.State.{
  GraphPhase, GraphNodeId, GraphIssueKind, GraphIssueSeverity, GraphIssue, issue,
  GraphValidationResult, accepted_result, refused_result, GraphState, merge_validation_results,
}
use lang_sop.Runtime.Contracts.{
  WholeFieldPlannerGraphContract, GraphNodeContract, node_contract, validate_graph_state,
  validate_success_postconditions,
}
use lang_sop.Runtime.Checkpoints.{CheckpointEnvelope, checkpoint_accepted, validate_checkpoint}
use lang_sop.Runtime.Runner.{
  GraphRunPolicy, GraphRunResult, Visits, append_visit, visit_node, trace_validation,
  operator_terminal_validation, apply_completion_policy, graph_request_ref, terminal_result,
}

-- The arguments of a run.
pub record RunInput : Type 0 where
  pub graph_state : GraphState
  pub operator_contract : OperatorContract
  pub operator_request : Option RequestInput
  pub operator_function : Option OperatorFunction
  pub input_records : List Object
  pub checkpoint : Option CheckpointEnvelope
  pub policy : GraphRunPolicy
  pub graph_contract : WholeFieldPlannerGraphContract

abbrev pub add_if : Bool → GraphIssue → GraphValidationResult → GraphValidationResult
add_if true i v = merge_validation_results (v ∷ refused_result i ∷ [])
add_if false i v = v

abbrev pub is_contested : String → Bool
is_contested ref = has_part (lower ref) "contested"

abbrev completion_check : GraphState → Option GraphNodeContract → GraphValidationResult
completion_check s none = accepted_result
completion_check s (some k) = validate_success_postconditions s k

abbrev is_success_kind : OutcomeKind → Bool
is_success_kind OutcomeKind.success = true
is_success_kind _ = false

module _ (digest : Digest) (x : RunInput) where
  open x use {
    graph_state, operator_contract, operator_request, operator_function, input_records, checkpoint,
    policy, graph_contract,
  }

  abbrev finish : GraphValidationResult → Visits → Option OperatorRunResult → GraphRunResult
  finish v visits run =
      terminal_result digest (graph_request_ref operator_request) graph_state v visits run none

  unfoldable pub completion_validation : GraphValidationResult
  completion_validation =
      apply_completion_policy graph_state
        (completion_check graph_state (node_contract graph_contract GraphNodeId.completion_gate))
        policy

  unfoldable pub completion_stage : Visits → OperatorRunResult → GraphRunResult
  completion_stage visits run =
      let here = append_visit visits GraphPhase.completion_gate GraphNodeId.completion_gate in
      if not completion_validation.accepted
      then finish completion_validation here (some run)
      else finish accepted_result here (some run)

  unfoldable pub trace_stage : Visits → OperatorRunResult → GraphRunResult
  trace_stage visits run =
      let here = append_visit visits GraphPhase.trace_recording GraphNodeId.trace_recording in
      if not (trace_validation run).accepted
      then finish (trace_validation run) here (some run)
      else if not (is_success_kind run.outcome_kind)
      then finish (operator_terminal_validation run.outcome_kind) here (some run)
      else completion_stage here run

  abbrev run_options : RunOptions
  run_options = record default_options {
    operator_function = operator_function;
    input_records = input_records;
    run_id = policy.run_id;
    event_id = "ir4-runtime-operator-event";
    accepted_scope = policy.accepted_scope;
  }

  unfoldable pub invoke_stage : Visits → RequestInput → GraphRunResult
  invoke_stage visits q =
      trace_stage
        (append_visit visits GraphPhase.operator_invocation GraphNodeId.operator_invocation)
        (run_contract_operator digest operator_contract run_options q)

  unfoldable pub select_validation : GraphValidationResult
  select_validation = elim operator_request [
    | none ↦ merge_validation_results (
        visit_node graph_state graph_contract GraphNodeId.operator_contract_select
        ∷ refused_result (
            issue GraphIssueKind.missing_authority GraphIssueSeverity.blocked
              "operator_request is required before operator invocation" "operator_request")
        ∷ [])
    | some q ↦ visit_node graph_state graph_contract GraphNodeId.operator_contract_select
  ]

  -- The request is there once its absence has been refused.
  unfoldable pub select_stage : Visits → GraphRunResult
  select_stage visits =
      let here =
        append_visit visits GraphPhase.operator_contract_select
          GraphNodeId.operator_contract_select in
      elim operator_request [
        | none ↦ finish select_validation here none
        | some q ↦
            if not select_validation.accepted
            then finish select_validation here none
            else invoke_stage here q
      ]

  unfoldable pub coordination_validation : GraphValidationResult
  coordination_validation =
      add_if (any is_contested graph_state.coordination_claim_ref_set)
        (issue GraphIssueKind.contested_coordination GraphIssueSeverity.interrupt
          "contested coordination claims must be resolved outside the runner"
          "coordination_claim_ref_set")
        (visit_node graph_state graph_contract GraphNodeId.coordination_guard)

  unfoldable pub coordination_stage : Visits → GraphRunResult
  coordination_stage visits =
      let here = append_visit visits GraphPhase.coordination_guard GraphNodeId.coordination_guard in
      if not coordination_validation.accepted
      then finish coordination_validation here none
      else select_stage here

  unfoldable pub readiness_validation : GraphValidationResult
  readiness_validation =
      add_if (policy.require_readiness_proof && is_empty graph_state.proof_result_ref_set)
        (issue GraphIssueKind.missing_authority GraphIssueSeverity.blocked
          "readiness proof refs are required before operator invocation" "proof_result_ref_set")
        (visit_node graph_state graph_contract GraphNodeId.readiness_guard)

  unfoldable pub readiness_stage : Visits → GraphRunResult
  readiness_stage visits =
      let here = append_visit visits GraphPhase.readiness_guard GraphNodeId.readiness_guard in
      if not readiness_validation.accepted
      then finish readiness_validation here none
      else coordination_stage here

  unfoldable pub checkpoint_stage : Visits → GraphRunResult
  checkpoint_stage visits = elim checkpoint [
    | none ↦ readiness_stage visits
    | some c ↦
        let checked = validate_checkpoint c policy.accepted_freshness_basis_ref_set in
        if not (checkpoint_accepted checked)
        then terminal_result digest (graph_request_ref operator_request) graph_state
            checked.validation visits none (some checked)
        else readiness_stage visits
  ]

  unfoldable pub packet_validation : GraphValidationResult
  packet_validation = merge_validation_results (
      visit_node graph_state graph_contract GraphNodeId.packet_intake
      ∷ validate_graph_state graph_state
      ∷ [])

  unfoldable pub run_whole_field_planner_graph : GraphRunResult
  unfolding any append_visit apply_completion_policy checkpoint_stage completion_stage
      completion_validation coordination_stage coordination_validation graph_request_ref has_part
      invoke_stage lower merge_validation_results node_contract operator_terminal_validation
      packet_validation readiness_stage readiness_validation run_contract_operator select_stage
      select_validation terminal_result trace_stage trace_validation validate_checkpoint
      validate_graph_state validate_success_postconditions visit_node
  run_whole_field_planner_graph =
      let here =
        append_visit (record { phases = []; nodes = [] }) graph_state.graph_phase
          GraphNodeId.packet_intake in
      if not packet_validation.accepted
      then finish packet_validation here none
      else checkpoint_stage here
