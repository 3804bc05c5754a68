-- ===== src/Manager/Records.antt =====
-- The records of src/langsop/manager/records.py.
use lang_sop.Manager.Fields.{
  manager_issue_severity_is_blocked, manager_issue_severity_is_fault,
  manager_issue_severity_is_interrupt, manager_issue_severity_is_refused,
  manager_work_packet_state_is_ready_for_claim,
}
use lang_sop.Manager.Vocabulary.{
  ManagerAuthorityClass, ManagerFreshnessState, ManagerIssueKind, ManagerIssueSeverity,
  ManagerModelRoute, ManagerReadinessState, ManagerWorkPacketState,
}
use lang_sop.Base.{Bool, List, Option, String, any, not, ◌&&◌}

pub record ManagerIssue : Type 0 where
  pub issue_kind : ManagerIssueKind
  pub severity : ManagerIssueSeverity
  pub reason : String
  pub field_name : Option String

abbrev pub manager_issue :
    ManagerIssueKind → ManagerIssueSeverity → String → Option String → ManagerIssue
manager_issue issue_kind severity reason field_name = record {
  issue_kind = issue_kind;
  severity = severity;
  reason = reason;
  field_name = field_name;
}

pub record ProofObligation : Type 0 where
  pub obligation_id : String
  pub required_evidence_ref_set : List String
  pub satisfied : Bool

abbrev pub proof_obligation : String → List String → Bool → ProofObligation
proof_obligation obligation_id required_evidence_ref_set satisfied = record {
  obligation_id = obligation_id;
  required_evidence_ref_set = required_evidence_ref_set;
  satisfied = satisfied;
}

pub record CompletionGate : Type 0 where
  pub gate_id : String
  pub required_review_ref : String
  pub opened : Bool

abbrev pub completion_gate : String → String → Bool → CompletionGate
completion_gate gate_id required_review_ref opened = record {
  gate_id = gate_id;
  required_review_ref = required_review_ref;
  opened = opened;
}

pub record SopFirstManagerInterruptContext : Type 0 where
  pub interrupt_id : String
  pub interrupt_kind : ManagerIssueKind
  pub active_work_ref : String
  pub evidence_ref_set : List String
  pub required_route_set : List String
  pub non_authority_notice : String

pub record ManagerCycleInput : Type 0 where
  pub cycle_id : String
  pub work_ref : String
  pub source_ref_set : List String
  pub authority_notice_ref : String
  pub source_authority_state : String
  pub support_state : String
  pub coordination_state : String
  pub operations_dry_run_state : String
  pub carrier_context_kind : String
  pub carrier_context_state : String
  pub surface_kind : String
  pub requested_effect_classification_state : String
  pub requested_effect_kind : String
  pub requested_promotion : String
  pub live_authority_state : String
  pub human_override_state : String
  pub override_scope : String
  pub risk_context_state : String
  pub revocation_route_state : String
  pub generated_projection_state : String
  pub graph_checkpoint_state : String
  pub kernel_reference_state : String
  pub model_route : ManagerModelRoute
  pub model_route_state : String
  pub completion_review_ref : String
  pub proof_obligation_ref_set : List String
  pub freshness_state : ManagerFreshnessState
  pub authority_class : ManagerAuthorityClass

pub record ManagerReadinessResult : Type 0 where
  pub accepted : Bool
  pub readiness_state : ManagerReadinessState
  pub work_packet_state : ManagerWorkPacketState
  pub issues : List ManagerIssue
  pub proof_obligation_set : List ProofObligation
  pub completion_gate : Option CompletionGate
  pub interrupt_context : Option SopFirstManagerInterruptContext
  pub authority_notice_set : List String
  pub dispatch_authorized : Bool
  pub live_effect_performed : Bool
  pub non_authority_notice : String

pub record WorkPacketCandidate : Type 0 where
  pub packet_id : String
  pub work_ref : String
  pub readiness_state : ManagerReadinessState
  pub packet_state : ManagerWorkPacketState
  pub model_route : ManagerModelRoute
  pub proof_obligation_set : List ProofObligation
  pub completion_gate : Option CompletionGate
  pub issue_set : List ManagerIssue
  pub source_ref_set : List String
  pub authority_notice_ref : String
  pub dispatch_authorized : Bool
  pub live_effect_performed : Bool
  pub non_authority_notice : String

unfoldable pub has_fault : ManagerReadinessResult → Bool
unfolding any
has_fault e = any (λ issue. manager_issue_severity_is_fault issue.severity) e.issues

unfoldable pub has_interrupt : ManagerReadinessResult → Bool
unfolding any
has_interrupt e = any (λ issue. manager_issue_severity_is_interrupt issue.severity) e.issues

unfoldable pub has_refusal : ManagerReadinessResult → Bool
unfolding any
has_refusal e = any (λ issue. manager_issue_severity_is_refused issue.severity) e.issues

unfoldable pub has_blocker : ManagerReadinessResult → Bool
unfolding any
has_blocker e = any (λ issue. manager_issue_severity_is_blocked issue.severity) e.issues

unfoldable pub ready_for_claim : WorkPacketCandidate → Bool
ready_for_claim e =
    (manager_work_packet_state_is_ready_for_claim e.packet_state)
    && (not e.dispatch_authorized && not e.live_effect_performed)
