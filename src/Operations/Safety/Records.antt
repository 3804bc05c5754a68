-- ===== src/Operations/Safety/Records.antt =====
-- The records of src/langsop/operations/resource_safety.py.
use lang_sop.Operations.Safety.Fields.{
  resource_safety_issue_severity_is_critical, resource_safety_issue_severity_is_refused,
}
use lang_sop.Operations.Safety.Vocabulary.{
  HumanApprovalState, ResourceRiskLevel, ResourceSafetyIssueKind, ResourceSafetyIssueSeverity,
  ResourceTargetSafetyClass,
}
use lang_sop.Base.{Bool, List, String, [], any, is_empty, is_empty_text, not, ◌&&◌, ◌∷◌}
use lang_sop.Records.{Presence}

pub record ResourceSafetyIssue : Type 0 where
  pub issue_kind : ResourceSafetyIssueKind
  pub severity : ResourceSafetyIssueSeverity
  pub reason : String
  pub evidence_ref_set : List String

abbrev pub resource_safety_issue :
    ResourceSafetyIssueKind
    → ResourceSafetyIssueSeverity
    → String
    → List String
    → ResourceSafetyIssue
resource_safety_issue issue_kind severity reason evidence_ref_set = record {
  issue_kind = issue_kind;
  severity = severity;
  reason = reason;
  evidence_ref_set = evidence_ref_set;
}

pub record BlastRadiusEnvelope : Type 0 where
  pub affected_resource_set : List String
  pub expected_duration : String
  pub cost_or_utilization_estimate : String
  pub possible_side_effect_set : List String
  pub rollback_or_abort_route_ref : String
  pub monitoring_signal_set : List String
  pub owner_or_human_contact_ref : String
  pub stale_after : String
  pub authority_notice_ref : String
  pub blast_radius_state : String

abbrev pub blast_radius_envelope_fields : BlastRadiusEnvelope → Presence
blast_radius_envelope_fields e =
    ("affected_resource_set", not (is_empty e.affected_resource_set))
    ∷ ("expected_duration", not (is_empty_text e.expected_duration))
    ∷ ("cost_or_utilization_estimate", not (is_empty_text e.cost_or_utilization_estimate))
    ∷ ("possible_side_effect_set", not (is_empty e.possible_side_effect_set))
    ∷ ("rollback_or_abort_route_ref", not (is_empty_text e.rollback_or_abort_route_ref))
    ∷ ("monitoring_signal_set", not (is_empty e.monitoring_signal_set))
    ∷ ("owner_or_human_contact_ref", not (is_empty_text e.owner_or_human_contact_ref))
    ∷ ("stale_after", not (is_empty_text e.stale_after))
    ∷ ("authority_notice_ref", not (is_empty_text e.authority_notice_ref))
    ∷ ("blast_radius_state", not (is_empty_text e.blast_radius_state))
    ∷ []

pub record RollbackAbortRouteEnvelope : Type 0 where
  pub rollback_or_abort_route_id : String
  pub abort_condition_set : List String
  pub rollback_step_set : List String
  pub safe_shutdown_condition : String
  pub monitoring_signal_set : List String
  pub owner_or_human_contact_ref : String
  pub stale_after : String
  pub authority_notice_ref : String
  pub affected_resource_set : List String
  pub route_state : String

abbrev pub rollback_abort_route_envelope_fields : RollbackAbortRouteEnvelope → Presence
rollback_abort_route_envelope_fields e =
    ("rollback_or_abort_route_id", not (is_empty_text e.rollback_or_abort_route_id))
    ∷ ("abort_condition_set", not (is_empty e.abort_condition_set))
    ∷ ("rollback_step_set", not (is_empty e.rollback_step_set))
    ∷ ("safe_shutdown_condition", not (is_empty_text e.safe_shutdown_condition))
    ∷ ("monitoring_signal_set", not (is_empty e.monitoring_signal_set))
    ∷ ("owner_or_human_contact_ref", not (is_empty_text e.owner_or_human_contact_ref))
    ∷ ("stale_after", not (is_empty_text e.stale_after))
    ∷ ("authority_notice_ref", not (is_empty_text e.authority_notice_ref))
    ∷ ("affected_resource_set", not (is_empty e.affected_resource_set))
    ∷ ("route_state", not (is_empty_text e.route_state))
    ∷ []

pub record HumanApprovalEnvelope : Type 0 where
  pub human_approval_id : String
  pub approved_by : String
  pub approved_at : String
  pub approved_operation_request_ref : String
  pub approved_intended_effect : String
  pub approved_resource_target : String
  pub authority_notice_ref : String
  pub risk_classification : String
  pub blast_radius_ref : String
  pub rollback_or_abort_route_ref : String
  pub expiration_or_stale_after : String
  pub explicit_limit_set : List String
  pub revocation_route : String
  pub approval_state : HumanApprovalState
  pub broad_approval_requested : Bool
  pub live_control_authority_claimed : Bool

abbrev pub human_approval_envelope_fields : HumanApprovalEnvelope → Presence
human_approval_envelope_fields e =
    ("human_approval_id", not (is_empty_text e.human_approval_id))
    ∷ ("approved_by", not (is_empty_text e.approved_by))
    ∷ ("approved_at", not (is_empty_text e.approved_at))
    ∷ ("approved_operation_request_ref", not (is_empty_text e.approved_operation_request_ref))
    ∷ ("approved_intended_effect", not (is_empty_text e.approved_intended_effect))
    ∷ ("approved_resource_target", not (is_empty_text e.approved_resource_target))
    ∷ ("authority_notice_ref", not (is_empty_text e.authority_notice_ref))
    ∷ ("risk_classification", not (is_empty_text e.risk_classification))
    ∷ ("blast_radius_ref", not (is_empty_text e.blast_radius_ref))
    ∷ ("rollback_or_abort_route_ref", not (is_empty_text e.rollback_or_abort_route_ref))
    ∷ ("expiration_or_stale_after", not (is_empty_text e.expiration_or_stale_after))
    ∷ ("explicit_limit_set", not (is_empty e.explicit_limit_set))
    ∷ ("revocation_route", not (is_empty_text e.revocation_route))
    ∷ []

pub record ResourceSafetyReview : Type 0 where
  pub operation_request_ref : String
  pub target_safety_class : ResourceTargetSafetyClass
  pub risk_level : ResourceRiskLevel
  pub required_human_review : Bool
  pub live_control_authorized : Bool
  pub issues : List ResourceSafetyIssue
  pub safe_next_route_set : List String

abbrev pub resource_safety_review :
    String
    → ResourceTargetSafetyClass
    → ResourceRiskLevel
    → Bool
    → Bool
    → List ResourceSafetyIssue
    → List String
    → ResourceSafetyReview
resource_safety_review operation_request_ref target_safety_class risk_level required_human_review
      live_control_authorized issues safe_next_route_set =
    record {
      operation_request_ref = operation_request_ref;
      target_safety_class = target_safety_class;
      risk_level = risk_level;
      required_human_review = required_human_review;
      live_control_authorized = live_control_authorized;
      issues = issues;
      safe_next_route_set = safe_next_route_set;
    }

unfoldable pub accepted : ResourceSafetyReview → Bool
accepted e = is_empty e.issues && not e.live_control_authorized

unfoldable pub has_refusal : ResourceSafetyReview → Bool
unfolding any
has_refusal e = any (λ issue. resource_safety_issue_severity_is_refused issue.severity) e.issues

unfoldable pub has_critical : ResourceSafetyReview → Bool
unfolding any
has_critical e = any (λ issue. resource_safety_issue_severity_is_critical issue.severity) e.issues
