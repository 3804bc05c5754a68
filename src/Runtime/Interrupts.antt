-- ===== src/Runtime/Interrupts.antt =====
-- src/langsop/runtime/interrupts.py: SOP-first interrupt packets.
pub mod Review
use lang_sop.Base.{
  String, ◌<>◌, Bool, true, false, not, List, [], ◌∷◌, ◌++◌, ◌==◌, map, keep, only_if, is_empty,
  is_empty_text, if◌then◌else◌,
}
use lang_sop.Text.{has_part, lower}
use lang_sop.Text.Sets.{sorted, distinct}
use lang_sop.Digest.{Digest, text_value, texts_value}
use lang_sop.Runtime.State.{
  GraphNodeId, node_value, GraphPhase, GraphIssueKind, GraphIssueSeverity, GraphIssue, issue,
  GraphValidationResult, result_of, GraphState, non_authority_warning_text,
}

abbrev pub interrupt_schema_version_text : String
interrupt_schema_version_text = "ir4-sop-first-interrupt-context-v1"

abbrev pub interrupt_status_text : String
interrupt_status_text = "generated_projection_only_until_rewritten_as_reviewed_SOP_artifact"

pub data InterruptKind : Type 0 where
  ambiguous_identity authority_conflict stale_input missing_proof_route : InterruptKind
  contested_coordination_claim unsupported_scope high_risk_operation : InterruptKind
  human_override_required checkpoint_authority_confusion : InterruptKind
  hidden_write_cannot_be_ruled_out : InterruptKind

unfoldable pub interrupt_value : InterruptKind → String
interrupt_value ambiguous_identity = "ambiguous_identity"
interrupt_value authority_conflict = "authority_conflict"
interrupt_value stale_input = "stale_input"
interrupt_value missing_proof_route = "missing_proof_route"
interrupt_value contested_coordination_claim = "contested_coordination_claim"
interrupt_value unsupported_scope = "unsupported_scope"
interrupt_value high_risk_operation = "high_risk_operation"
interrupt_value human_override_required = "human_override_required"
interrupt_value checkpoint_authority_confusion = "checkpoint_authority_confusion"
interrupt_value hidden_write_cannot_be_ruled_out = "hidden_write_cannot_be_ruled_out"

-- The markers of the set, in the order of their texts.
abbrev pub forbidden_interrupt_context_markers : List String
forbidden_interrupt_context_markers =
    "credential" ∷ "gpu_state" ∷ "live_machine_state" ∷ "network_state" ∷ "process_list" ∷ "secret"
    ∷ []

pub record InterruptContextPacket : Type 0 where
  pub interrupt_id : String
  pub interrupt_kind : InterruptKind
  pub originating_node_id : GraphNodeId
  pub graph_phase : GraphPhase
  pub active_work_packet_ref : String
  pub input_record_ref_set : List String
  pub authority_basis_ref_set : List String
  pub operator_trace_ref_set : List String
  pub fault_record_ref_set : List String
  pub stale_projection_ref_set : List String
  pub contested_claim_ref_set : List String
  pub required_judgment : String
  pub allowed_resume_route_set : List String
  pub evidence_ref_set : List String
  pub interrupt_schema_version : String
  pub packet_status : String
  pub non_authority_warning : String

module _ (digest : Digest) where
  unfoldable pub deterministic_interrupt_id :
      InterruptKind → GraphNodeId → String → List String → String → String
  unfolding sorted interrupt_value node_value
  deterministic_interrupt_id kind node packet_ref evidence version = digest (
      ("active_work_packet_ref", text_value packet_ref)
      ∷ ("evidence_ref_set", texts_value (sorted evidence))
      ∷ ("interrupt_kind", text_value (interrupt_value kind))
      ∷ ("interrupt_schema_version", text_value version)
      ∷ ("originating_node_id", text_value (node_value node))
      ∷ [])

  unfoldable pub build_interrupt_context :
      InterruptKind → GraphState → String → List String → List String → InterruptContextPacket
  unfolding deterministic_interrupt_id
  build_interrupt_context kind s judgment routes evidence = record {
    interrupt_id =
        deterministic_interrupt_id kind s.current_node_id s.active_work_packet_ref evidence
          interrupt_schema_version_text;
    interrupt_kind = kind;
    originating_node_id = s.current_node_id;
    graph_phase = s.graph_phase;
    active_work_packet_ref = s.active_work_packet_ref;
    input_record_ref_set = s.input_record_ref_set;
    authority_basis_ref_set = s.accepted_boundary_pack_ref_set;
    operator_trace_ref_set = s.operator_trace_ref_set;
    fault_record_ref_set = s.fault_record_ref_set;
    stale_projection_ref_set = s.stale_projection_ref_set;
    contested_claim_ref_set = s.coordination_claim_ref_set;
    required_judgment = judgment;
    allowed_resume_route_set = routes;
    evidence_ref_set = evidence;
    interrupt_schema_version = interrupt_schema_version_text;
    packet_status = interrupt_status_text;
    non_authority_warning = non_authority_warning_text;
  }

-- The markers that stand in one reference, and in any of them.
unfoldable pub marker_hits : String → List String
unfolding keep has_part
marker_hits lowered = keep (λ marker. has_part lowered marker) forbidden_interrupt_context_markers

unfoldable pub all_hits : List String → List String
unfolding marker_hits lower
all_hits [] = []
all_hits (ref ∷ refs) = marker_hits (lower ref) ++ all_hits refs

unfoldable pub forbidden_context_hits : List String → List String
unfolding all_hits sorted distinct
forbidden_context_hits refs = sorted (distinct (all_hits refs))

abbrev forbidden_issue : String → GraphIssue
forbidden_issue marker =
    issue GraphIssueKind.unsupported_scope GraphIssueSeverity.fault
      ("interrupt context includes forbidden live-state marker: " <> marker) "evidence_ref_set"

-- `GraphIssueKind` has no member `MISSING_PROOF_ROUTE`, so the kind of the third issue is the other.
unfoldable pub validate_interrupt_context : InterruptContextPacket → GraphValidationResult
unfolding forbidden_context_hits
validate_interrupt_context p = result_of (
    only_if (is_empty_text p.active_work_packet_ref) (
      issue GraphIssueKind.missing_field GraphIssueSeverity.fault
        "active_work_packet_ref is required in interrupt context" "active_work_packet_ref")
    ++ (only_if (is_empty_text p.required_judgment) (
          issue GraphIssueKind.missing_field GraphIssueSeverity.fault
            "required_judgment is required in interrupt context" "required_judgment")
        ++ (only_if (is_empty p.allowed_resume_route_set) (
              issue GraphIssueKind.missing_authority GraphIssueSeverity.blocked
                "allowed_resume_route_set must cite accepted resume routes"
                "allowed_resume_route_set")
            ++ (map forbidden_issue
                  (forbidden_context_hits (p.evidence_ref_set ++ p.input_record_ref_set))
                ++ only_if (not (p.packet_status == interrupt_status_text)) (
                    issue GraphIssueKind.generated_authority GraphIssueSeverity.fault
                      "interrupt packet must not claim direct authority" "packet_status")))))

unfoldable pub interrupt_kind_for_issue : GraphIssue → InterruptKind
interrupt_kind_for_issue i = elim i.issue_kind [
  | GraphIssueKind.ambiguous_identity ↦ InterruptKind.ambiguous_identity
  | GraphIssueKind.checkpoint_authority_confusion ↦ InterruptKind.checkpoint_authority_confusion
  | GraphIssueKind.contested_coordination ↦ InterruptKind.contested_coordination_claim
  | GraphIssueKind.stale_projection ↦ InterruptKind.stale_input
  | GraphIssueKind.unsupported_scope ↦ InterruptKind.unsupported_scope
  | GraphIssueKind.hidden_write_attempt ↦ InterruptKind.hidden_write_cannot_be_ruled_out
  | _ ↦ InterruptKind.missing_proof_route
]
