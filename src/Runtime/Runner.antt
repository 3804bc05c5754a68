-- ===== src/Runtime/Runner.antt =====
-- src/langsop/runtime/graph_runner.py: the graph path, from packet intake to the terminal outcome.
use lang_sop.Base.{
  String, ◌<>◌, Bool, true, false, not, ◌&&◌, Option, none, some, List, [], ◌∷◌, ◌++◌, only_if,
  is_empty_text, is_missing, if◌then◌else◌,
}
use lang_sop.Digest.{Digest}
use lang_sop.Operators.Values.{get, to_str}
use lang_sop.Operators.Contracts.{OutcomeKind, outcome_kind_value}
use lang_sop.Operators.Results.{OperatorRunResult, RequestInput, built, mapping}
use lang_sop.Runtime.State.{
  GraphPhase, GraphNodeId, same_phase, same_node, TerminalOutcome, GraphIssueKind,
  GraphIssueSeverity, GraphIssue, issue, GraphValidationResult, result_of, accepted_result,
  refused_result, GraphState, TerminalOutcomeRecord, non_authority_warning_text,
}
use lang_sop.Runtime.Contracts.{
  WholeFieldPlannerGraphContract, GraphNodeContract, node_contract, validate_node_preconditions,
  classify_terminal_outcome,
}
use lang_sop.Runtime.Checkpoints.{CheckpointValidationResult}
use lang_sop.Runtime.Interrupts.{
  InterruptContextPacket, build_interrupt_context, interrupt_kind_for_issue,
}

pub record GraphRunPolicy : Type 0 where
  pub accepted_freshness_basis_ref_set : List String
  pub accepted_scope : String
  pub require_readiness_proof : Bool
  pub require_completion_review_for_success : Bool
  pub require_no_hidden_write_proof_for_success : Bool
  pub run_id : String

-- `GraphRunPolicy()`
abbrev pub default_policy : GraphRunPolicy
default_policy = record {
  accepted_freshness_basis_ref_set = [];
  accepted_scope = "accepted_activation_boundary";
  require_readiness_proof = true;
  require_completion_review_for_success = true;
  require_no_hidden_write_proof_for_success = true;
  run_id = "ir4-runtime-graph-run";
}

pub record GraphRunResult : Type 0 where
  pub request_ref : String
  pub accepted : Bool
  pub terminal_outcome : TerminalOutcome
  pub terminal_record : TerminalOutcomeRecord
  pub graph_phase_sequence : List GraphPhase
  pub node_visit_set : List GraphNodeId
  pub validation : GraphValidationResult
  pub operator_run_result : Option OperatorRunResult
  pub checkpoint_validation_result : Option CheckpointValidationResult
  pub interrupt_context : Option InterruptContextPacket

-- The two lists that a run appends to.
pub record Visits : Type 0 where
  pub phases : List GraphPhase
  pub nodes : List GraphNodeId

unfoldable pub append_visit : Visits → GraphPhase → GraphNodeId → Visits
append_visit v p n = record { phases = v.phases ++ p ∷ []; nodes = v.nodes ++ n ∷ [] }

abbrev check_node : GraphState → GraphNodeId → Option GraphNodeContract → GraphValidationResult
check_node s n none = refused_result (
    issue GraphIssueKind.invalid_transition GraphIssueSeverity.fault
      "node is not present in graph contract" "current_node_id")
check_node s n (some k) =
    if same_node n s.current_node_id then validate_node_preconditions s k else accepted_result

-- The check that `_visit_node` returns; the visit is recorded with it.
unfoldable pub visit_node :
    GraphState → WholeFieldPlannerGraphContract → GraphNodeId → GraphValidationResult
unfolding node_contract validate_node_preconditions same_node
visit_node s g n = check_node s n (node_contract g n)

unfoldable pub trace_validation : OperatorRunResult → GraphValidationResult
trace_validation r =
    if not (is_empty_text r.operator_trace.trace_id)
    then accepted_result
    else refused_result (
        issue GraphIssueKind.missing_trace GraphIssueSeverity.fault
          "operator trace is required before terminal success" "operator_trace")

abbrev returned_issue : GraphIssueKind → GraphIssueSeverity → OutcomeKind → GraphIssue
returned_issue kind severity outcome =
    issue kind severity ("operator runner returned " <> outcome_kind_value outcome)
      "operator_run_result"

unfoldable pub operator_terminal_validation : OutcomeKind → GraphValidationResult
unfolding outcome_kind_value
operator_terminal_validation OutcomeKind.blocked_output = refused_result (
    returned_issue GraphIssueKind.missing_authority GraphIssueSeverity.blocked
      OutcomeKind.blocked_output)
operator_terminal_validation OutcomeKind.sop_first_interrupt = refused_result (
    returned_issue GraphIssueKind.ambiguous_identity GraphIssueSeverity.interrupt
      OutcomeKind.sop_first_interrupt)
operator_terminal_validation outcome =
    refused_result
      (returned_issue GraphIssueKind.hidden_write_attempt GraphIssueSeverity.fault outcome)

unfoldable pub apply_completion_policy :
    GraphState → GraphValidationResult → GraphRunPolicy → GraphValidationResult
apply_completion_policy s v p = result_of (
    v.issues
    ++ (only_if (p.require_completion_review_for_success && is_missing s.completion_review_ref) (
          issue GraphIssueKind.missing_completion_review GraphIssueSeverity.blocked
            "accepted completion review is required before terminal success"
            "completion_review_ref")
        ++ only_if
            (p.require_no_hidden_write_proof_for_success && is_missing s.no_hidden_write_proof_ref)
            (issue GraphIssueKind.hidden_write_attempt GraphIssueSeverity.blocked
              "no-hidden-write proof is required before terminal success"
              "no_hidden_write_proof_ref")))

unfoldable pub graph_request_ref : Option RequestInput → String
unfolding get to_str
graph_request_ref none = "missing_operator_request"
graph_request_ref (some (built r)) = r.request_id
graph_request_ref (some (mapping m)) = elim (get m "request_id") [
  | none ↦ "operator_request"
  | some v ↦ to_str v
]

abbrev ends_terminal : List GraphPhase → Bool
ends_terminal [] = false
ends_terminal (p ∷ []) = same_phase p GraphPhase.terminal_outcome
ends_terminal (p ∷ q ∷ ps) = ends_terminal (q ∷ ps)

-- The visit that `_terminal_result` adds unless the last phase is terminal already.
unfoldable pub close_visits : Visits → Visits
unfolding append_visit same_phase
close_visits v =
    if not (ends_terminal v.phases)
    then append_visit v GraphPhase.terminal_outcome GraphNodeId.terminal_outcome
    else v

abbrev pub head? : List GraphIssue → Option GraphIssue
head? [] = none
head? (i ∷ is) = some i

abbrev reason_or_completed : Option GraphIssue → String
reason_or_completed none = "graph path completed"
reason_or_completed (some i) = i.reason

abbrev trace_refs : Option OperatorRunResult → List String
trace_refs none = []
trace_refs (some r) = r.operator_trace.trace_id ∷ []

abbrev texts_given : Option String → String → List String
texts_given none reason = only_if (not (is_empty_text reason)) reason
texts_given (some f) reason =
    only_if (not (is_empty_text f)) f ++ only_if (not (is_empty_text reason)) reason

abbrev pending_ref : Option InterruptContextPacket → GraphState → Option String
pending_ref none s = s.pending_interrupt_ref
pending_ref (some p) s = some p.interrupt_id

abbrev pub is_success : TerminalOutcome → Bool
is_success TerminalOutcome.success = true
is_success _ = false

module _ (digest : Digest) where
  unfoldable pub interrupt_context_for_issue :
      GraphState → Option GraphIssue → Option InterruptContextPacket
  unfolding build_interrupt_context interrupt_kind_for_issue
  interrupt_context_for_issue s none = none
  interrupt_context_for_issue s (some i) = some (
      build_interrupt_context digest (interrupt_kind_for_issue i) s i.reason
        ("accepted_SOP_decision_or_review_artifact" ∷ []) (texts_given i.field_name i.reason))

  abbrev pub context_if_interrupt :
      TerminalOutcome → GraphState → Option GraphIssue → Option InterruptContextPacket
  context_if_interrupt TerminalOutcome.interrupt s i = interrupt_context_for_issue s i
  context_if_interrupt _ s i = none

  unfoldable pub terminal_result :
      String
      → GraphState
      → GraphValidationResult
      → Visits
      → Option OperatorRunResult
      → Option CheckpointValidationResult
      → GraphRunResult
  unfolding close_visits classify_terminal_outcome interrupt_context_for_issue
  terminal_result request_ref s validation visits run checkpoint =
      let closed = close_visits visits in
      let outcome = classify_terminal_outcome validation in
      let primary = head? validation.issues in
      let context = context_if_interrupt outcome s primary in
      record {
        request_ref = request_ref;
        accepted = is_success outcome;
        terminal_outcome = outcome;
        terminal_record = record {
          terminal_outcome = outcome;
          reason = reason_or_completed primary;
          node_id = GraphNodeId.terminal_outcome;
          graph_phase_sequence = closed.phases;
          operator_trace_ref_set = trace_refs run;
          output_record_ref_set = s.output_record_ref_set;
          fault_record_ref_set = s.fault_record_ref_set;
          stale_projection_ref_set = s.stale_projection_ref_set;
          pending_interrupt_ref = pending_ref context s;
          no_hidden_write_proof_ref = s.no_hidden_write_proof_ref;
          non_authority_warning = non_authority_warning_text;
        };
        graph_phase_sequence = closed.phases;
        node_visit_set = closed.nodes;
        validation = validation;
        operator_run_result = run;
        checkpoint_validation_result = checkpoint;
        interrupt_context = context;
      }
