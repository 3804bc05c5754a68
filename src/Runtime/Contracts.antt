-- ===== src/Runtime/Contracts.antt =====
-- src/langsop/runtime/graph_contracts.py: node and edge contracts, and the checks of a graph state.
pub mod Defaults
use lang_sop.Base.{
  String, ◌<>◌, Bool, true, false, not, Option, none, some, List, [], ◌∷◌, ◌++◌, ◌==◌, ◌&&◌, find?,
  keep, map, only_if, is_empty, is_empty_text, is_missing, if◌then◌else◌,
}
use lang_sop.Runtime.State.{
  GraphPhase, GraphNodeId, node_value, same_phase, same_node, TerminalOutcome, outcome_value,
  GraphIssue, issue, GraphIssueKind, GraphIssueSeverity, GraphValidationResult, result_of,
  accepted_result, refused_result, GraphState, terminal_outcome_for_issues,
}

-- The attributes of `GraphState`, which contracts name by their text. `getattr` raises for any other.
pub data StateField : Type 0 where
  active_work_packet_ref accepted_boundary_pack_ref_set graph_phase current_node_id : StateField
  input_record_ref_set output_record_ref_set operator_trace_ref_set : StateField
  proof_result_ref_set stale_projection_ref_set fault_record_ref_set : StateField
  coordination_claim_ref_set source_ref_set lineage_edge_set : StateField
  pending_interrupt_ref checkpoint_ref completion_review_ref : StateField
  no_hidden_write_proof_ref authority_limit non_authority_warning : StateField

unfoldable pub field_text : StateField → String
field_text active_work_packet_ref = "active_work_packet_ref"
field_text accepted_boundary_pack_ref_set = "accepted_boundary_pack_ref_set"
field_text graph_phase = "graph_phase"
field_text current_node_id = "current_node_id"
field_text input_record_ref_set = "input_record_ref_set"
field_text output_record_ref_set = "output_record_ref_set"
field_text operator_trace_ref_set = "operator_trace_ref_set"
field_text proof_result_ref_set = "proof_result_ref_set"
field_text stale_projection_ref_set = "stale_projection_ref_set"
field_text fault_record_ref_set = "fault_record_ref_set"
field_text coordination_claim_ref_set = "coordination_claim_ref_set"
field_text source_ref_set = "source_ref_set"
field_text lineage_edge_set = "lineage_edge_set"
field_text pending_interrupt_ref = "pending_interrupt_ref"
field_text checkpoint_ref = "checkpoint_ref"
field_text completion_review_ref = "completion_review_ref"
field_text no_hidden_write_proof_ref = "no_hidden_write_proof_ref"
field_text authority_limit = "authority_limit"
field_text non_authority_warning = "non_authority_warning"

-- A phase or a node is a non-empty `str` too.
unfoldable pub field_has_value : GraphState → StateField → Bool
field_has_value s active_work_packet_ref = not (is_empty_text s.active_work_packet_ref)
field_has_value s accepted_boundary_pack_ref_set = not (is_empty s.accepted_boundary_pack_ref_set)
field_has_value s graph_phase = true
field_has_value s current_node_id = true
field_has_value s input_record_ref_set = not (is_empty s.input_record_ref_set)
field_has_value s output_record_ref_set = not (is_empty s.output_record_ref_set)
field_has_value s operator_trace_ref_set = not (is_empty s.operator_trace_ref_set)
field_has_value s proof_result_ref_set = not (is_empty s.proof_result_ref_set)
field_has_value s stale_projection_ref_set = not (is_empty s.stale_projection_ref_set)
field_has_value s fault_record_ref_set = not (is_empty s.fault_record_ref_set)
field_has_value s coordination_claim_ref_set = not (is_empty s.coordination_claim_ref_set)
field_has_value s source_ref_set = not (is_empty s.source_ref_set)
field_has_value s lineage_edge_set = not (is_empty s.lineage_edge_set)
field_has_value s pending_interrupt_ref = not (is_missing s.pending_interrupt_ref)
field_has_value s checkpoint_ref = not (is_missing s.checkpoint_ref)
field_has_value s completion_review_ref = not (is_missing s.completion_review_ref)
field_has_value s no_hidden_write_proof_ref = not (is_missing s.no_hidden_write_proof_ref)
field_has_value s authority_limit = not (is_empty_text s.authority_limit)
field_has_value s non_authority_warning = not (is_empty_text s.non_authority_warning)

pub record GraphNodeContract : Type 0 where
  pub node_id : GraphNodeId
  pub graph_phase : GraphPhase
  pub required_state_field_set : List StateField
  pub required_ref_field_set : List StateField
  pub required_for_success_field_set : List StateField
  pub terminal_on_issue : Bool

-- `TerminalOutcome | str`. A member of the enumeration equals the text of its value.
pub data EdgeOutcome : Type 0 where
  terminal : TerminalOutcome → EdgeOutcome
  named : String → EdgeOutcome

unfoldable pub edge_text : EdgeOutcome → String
unfolding outcome_value
edge_text (terminal o) = outcome_value o
edge_text (named s) = s

pub record GraphEdgeContract : Type 0 where
  pub from_node_id : GraphNodeId
  pub outcome : EdgeOutcome
  pub to_node_id : GraphNodeId

pub record WholeFieldPlannerGraphContract : Type 0 where
  pub node_contract_set : List GraphNodeContract
  pub edge_contract_set : List GraphEdgeContract
  pub authority_limit : String
  pub external_dependency_set : List String

unfoldable pub node_contract :
    WholeFieldPlannerGraphContract → GraphNodeId → Option GraphNodeContract
unfolding find? same_node
node_contract g n = find? (λ c. same_node c.node_id n) g.node_contract_set

unfoldable pub find_edge : GraphNodeId → EdgeOutcome → List GraphEdgeContract → Option GraphNodeId
unfolding same_node edge_text
find_edge n o [] = none
find_edge n o (e ∷ es) =
    if same_node e.from_node_id n && (edge_text e.outcome == edge_text o)
    then some e.to_node_id
    else find_edge n o es

unfoldable pub next_node_for :
    WholeFieldPlannerGraphContract → GraphNodeId → EdgeOutcome → Option GraphNodeId
unfolding find_edge
next_node_for g n o = find_edge n o g.edge_contract_set

unfoldable pub validate_graph_state : GraphState → GraphValidationResult
validate_graph_state s = result_of (
    only_if (is_empty_text s.active_work_packet_ref) (
      issue GraphIssueKind.missing_field GraphIssueSeverity.fault
        "active_work_packet_ref is required" "active_work_packet_ref")
    ++ (only_if (is_empty s.accepted_boundary_pack_ref_set) (
          issue GraphIssueKind.missing_authority GraphIssueSeverity.fault
            "accepted boundary pack refs are required" "accepted_boundary_pack_ref_set")
        ++ (only_if (not (s.authority_limit == "execution_state_only")) (
              issue GraphIssueKind.generated_authority GraphIssueSeverity.fault
                "graph state may not claim authority beyond execution_state_only" "authority_limit")
            ++ (only_if (not (is_empty s.stale_projection_ref_set)) (
                  issue GraphIssueKind.stale_projection GraphIssueSeverity.stale
                    "stale projection refs are present" "stale_projection_ref_set")
                ++ only_if (not (is_empty s.fault_record_ref_set)) (
                    issue GraphIssueKind.hidden_write_attempt GraphIssueSeverity.fault
                      "fault records are present in graph state" "fault_record_ref_set")))))

abbrev missing_state_fields : GraphState → GraphNodeContract → List StateField → List GraphIssue
missing_state_fields s c [] = []
missing_state_fields s c (f ∷ fs) =
    only_if (not (field_has_value s f)) (
      issue GraphIssueKind.missing_field GraphIssueSeverity.fault
        (field_text f <> " is required for " <> node_value c.node_id) (field_text f))
    ++ missing_state_fields s c fs

abbrev missing_ref_fields : GraphState → GraphNodeContract → List StateField → List GraphIssue
missing_ref_fields s c [] = []
missing_ref_fields s c (f ∷ fs) =
    only_if (not (field_has_value s f)) (
      issue GraphIssueKind.missing_authority GraphIssueSeverity.fault
        (field_text f <> " is required authority input for " <> node_value c.node_id)
        (field_text f))
    ++ missing_ref_fields s c fs

unfoldable pub validate_node_preconditions : GraphState → GraphNodeContract → GraphValidationResult
unfolding same_node same_phase field_has_value field_text node_value
validate_node_preconditions s c = result_of (
    only_if (not (same_node s.current_node_id c.node_id)) (
      issue GraphIssueKind.invalid_transition GraphIssueSeverity.fault
        "state current node does not match node contract" "current_node_id")
    ++ (only_if (not (same_phase s.graph_phase c.graph_phase)) (
          issue GraphIssueKind.invalid_transition GraphIssueSeverity.fault
            "state graph phase does not match node contract" "graph_phase")
        ++ (missing_state_fields s c c.required_state_field_set
            ++ missing_ref_fields s c c.required_ref_field_set)))

abbrev missing_success_fields : GraphState → GraphNodeContract → List StateField → List GraphIssue
missing_success_fields s c [] = []
missing_success_fields s c (f ∷ fs) =
    only_if (not (field_has_value s f)) (
      issue GraphIssueKind.missing_field GraphIssueSeverity.blocked
        (field_text f <> " is required before " <> node_value c.node_id <> " may claim success")
        (field_text f))
    ++ missing_success_fields s c fs

unfoldable pub validate_success_postconditions :
    GraphState → GraphNodeContract → GraphValidationResult
unfolding field_has_value field_text node_value
validate_success_postconditions s c =
    result_of (missing_success_fields s c c.required_for_success_field_set)

unfoldable pub classify_terminal_outcome : GraphValidationResult → TerminalOutcome
unfolding terminal_outcome_for_issues
classify_terminal_outcome v = terminal_outcome_for_issues v.issues

abbrev is_node : GraphNodeId → Option GraphNodeId → Bool
is_node n none = false
is_node n (some m) = same_node m n

unfoldable pub validate_edge_transition :
    WholeFieldPlannerGraphContract → GraphNodeId → EdgeOutcome → GraphNodeId → GraphValidationResult
unfolding next_node_for same_node
validate_edge_transition g from o to =
    if is_node to (next_node_for g from o)
    then accepted_result
    else refused_result (
        issue GraphIssueKind.invalid_transition GraphIssueSeverity.fault
          "edge transition is not accepted by the graph contract" "to_node_id")
