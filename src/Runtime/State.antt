-- ===== src/Runtime/State.antt =====
-- src/langsop/runtime/graph_state.py: phases, nodes, outcomes, issues and the graph state.
pub mod Outcome
pub mod Parts
use lang_sop.Base.{
  ◌≡◌, refl, String, Bool, true, false, Option, none, some, List, [], ◌∷◌, ◌++◌, any, is_empty,
  if◌then◌else◌, ◌==◌,
}

abbrev pub non_authority_warning_text : String
non_authority_warning_text =
    "runtime graph state is execution-state-only and does not replace signed SOP authority"

pub data GraphPhase : Type 0 where
  packet_intake readiness_guard coordination_guard operator_contract_select : GraphPhase
  operator_invocation trace_recording completion_gate sop_first_interrupt : GraphPhase
  terminal_outcome : GraphPhase

-- The `.value` of a phase.
unfoldable pub phase_value : GraphPhase → String
phase_value packet_intake = "packet_intake"
phase_value readiness_guard = "readiness_guard"
phase_value coordination_guard = "coordination_guard"
phase_value operator_contract_select = "operator_contract_select"
phase_value operator_invocation = "operator_invocation"
phase_value trace_recording = "trace_recording"
phase_value completion_gate = "completion_gate"
phase_value sop_first_interrupt = "sop_first_interrupt"
phase_value terminal_outcome = "terminal_outcome"

pub data GraphNodeId : Type 0 where
  packet_intake readiness_guard coordination_guard operator_contract_select : GraphNodeId
  operator_invocation trace_recording completion_gate sop_first_interrupt : GraphNodeId
  terminal_outcome : GraphNodeId

-- The `.value` of a node.
unfoldable pub node_value : GraphNodeId → String
node_value packet_intake = "packet_intake"
node_value readiness_guard = "readiness_guard"
node_value coordination_guard = "coordination_guard"
node_value operator_contract_select = "operator_contract_select"
node_value operator_invocation = "operator_invocation"
node_value trace_recording = "trace_recording"
node_value completion_gate = "completion_gate"
node_value sop_first_interrupt = "sop_first_interrupt"
node_value terminal_outcome = "terminal_outcome"

-- Members of a `str` enumeration are equal when their values are.
unfoldable pub same_phase : GraphPhase → GraphPhase → Bool
unfolding phase_value
same_phase p q = phase_value p == phase_value q

unfoldable pub same_node : GraphNodeId → GraphNodeId → Bool
unfolding node_value
same_node a b = node_value a == node_value b

pub data TerminalOutcome : Type 0 where
  success blocked stale fault interrupt : TerminalOutcome

unfoldable pub outcome_value : TerminalOutcome → String
outcome_value success = "terminal_success"
outcome_value blocked = "terminal_blocked"
outcome_value stale = "terminal_stale"
outcome_value fault = "terminal_fault"
outcome_value interrupt = "terminal_interrupt"

pub data GraphIssueSeverity : Type 0 where
  blocked stale fault interrupt : GraphIssueSeverity

pub data GraphIssueKind : Type 0 where
  missing_field missing_authority missing_trace missing_completion_review : GraphIssueKind
  stale_projection checkpoint_authority_confusion generated_authority : GraphIssueKind
  hidden_write_attempt contested_coordination ambiguous_identity : GraphIssueKind
  unsupported_scope invalid_transition : GraphIssueKind

pub record GraphIssue : Type 0 where
  pub issue_kind : GraphIssueKind
  pub severity : GraphIssueSeverity
  pub reason : String
  pub field_name : Option String

-- The positional constructor call, with a field name.
abbrev pub issue : GraphIssueKind → GraphIssueSeverity → String → String → GraphIssue
issue k s r f = record { issue_kind = k; severity = s; reason = r; field_name = some f }

pub record GraphValidationResult : Type 0 where
  pub accepted : Bool
  pub issues : List GraphIssue

-- `GraphValidationResult(not issues, tuple(issues))`
abbrev pub result_of : List GraphIssue → GraphValidationResult
result_of issues = record { accepted = is_empty issues; issues = issues }

-- `GraphValidationResult(True)`
abbrev pub accepted_result : GraphValidationResult
accepted_result = record { accepted = true; issues = [] }

-- `GraphValidationResult(False, (issue,))`
abbrev pub refused_result : GraphIssue → GraphValidationResult
refused_result i = record { accepted = false; issues = i ∷ [] }

unfoldable pub is_fault : GraphIssue → Bool
is_fault i = elim i.severity [ fault ↦ true | _ ↦ false ]

unfoldable pub is_interrupt : GraphIssue → Bool
is_interrupt i = elim i.severity [ interrupt ↦ true | _ ↦ false ]

unfoldable pub is_stale : GraphIssue → Bool
is_stale i = elim i.severity [ stale ↦ true | _ ↦ false ]

unfoldable pub is_blocked : GraphIssue → Bool
is_blocked i = elim i.severity [ blocked ↦ true | _ ↦ false ]

unfoldable pub has_fault : GraphValidationResult → Bool
has_fault v = any is_fault v.issues

unfoldable pub has_interrupt : GraphValidationResult → Bool
has_interrupt v = any is_interrupt v.issues

unfoldable pub has_stale : GraphValidationResult → Bool
has_stale v = any is_stale v.issues

unfoldable pub has_blocker : GraphValidationResult → Bool
has_blocker v = any is_blocked v.issues

pub record GraphState : Type 0 where
  pub active_work_packet_ref : String
  pub accepted_boundary_pack_ref_set : List String
  pub graph_phase : GraphPhase
  pub current_node_id : GraphNodeId
  pub input_record_ref_set : List String
  pub output_record_ref_set : List String
  pub operator_trace_ref_set : List String
  pub proof_result_ref_set : List String
  pub stale_projection_ref_set : List String
  pub fault_record_ref_set : List String
  pub coordination_claim_ref_set : List String
  pub source_ref_set : List String
  pub lineage_edge_set : List String
  pub pending_interrupt_ref : Option String
  pub checkpoint_ref : Option String
  pub completion_review_ref : Option String
  pub no_hidden_write_proof_ref : Option String
  pub authority_limit : String
  pub non_authority_warning : String

pub record TerminalOutcomeRecord : Type 0 where
  pub terminal_outcome : TerminalOutcome
  pub reason : String
  pub node_id : GraphNodeId
  pub graph_phase_sequence : List GraphPhase
  pub operator_trace_ref_set : List String
  pub output_record_ref_set : List String
  pub fault_record_ref_set : List String
  pub stale_projection_ref_set : List String
  pub pending_interrupt_ref : Option String
  pub no_hidden_write_proof_ref : Option String
  pub non_authority_warning : String

unfoldable pub terminal_outcome_for_issues : List GraphIssue → TerminalOutcome
terminal_outcome_for_issues issues =
    if any is_fault issues
    then fault
    else if any is_interrupt issues
    then interrupt
    else if any is_stale issues
    then stale
    else if any is_blocked issues
    then blocked
    else success

-- The loop that extends one list by the issues of each result.
unfoldable pub gather_issues : List GraphValidationResult → List GraphIssue
gather_issues [] = []
gather_issues (r ∷ rs) = r.issues ++ gather_issues rs

unfoldable pub merge_validation_results : List GraphValidationResult → GraphValidationResult
unfolding gather_issues
merge_validation_results results = result_of (gather_issues results)
