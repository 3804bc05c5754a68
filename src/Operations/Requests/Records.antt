-- ===== src/Operations/Requests/Records.antt =====
-- The records of src/langsop/operations/requests.py.
use lang_sop.Operations.Requests.Fields.{
  operation_request_issue_severity_is_fault, operation_request_issue_severity_is_interrupt,
  operation_request_issue_severity_is_refused, operation_request_issue_severity_is_review_required,
}
use lang_sop.Operations.Requests.Vocabulary.{
  OperationAuthorityTier, OperationEffectClass, OperationFreshnessState, OperationRequestIssueKind,
  OperationRequestIssueSeverity, OperationRequestStatus, OperationTargetRisk,
}
use lang_sop.Base.{Bool, List, Option, String, [], any, ◌∷◌}
use lang_sop.Records.{Dict}

pub record OperationRequestValidationIssue : Type 0 where
  pub issue_kind : OperationRequestIssueKind
  pub severity : OperationRequestIssueSeverity
  pub reason : String
  pub field_name : Option String

abbrev pub operation_request_validation_issue :
    OperationRequestIssueKind
    → OperationRequestIssueSeverity
    → String
    → Option String
    → OperationRequestValidationIssue
operation_request_validation_issue issue_kind severity reason field_name = record {
  issue_kind = issue_kind;
  severity = severity;
  reason = reason;
  field_name = field_name;
}

pub record OperationRequestValidationResult : Type 0 where
  pub accepted : Bool
  pub status : OperationRequestStatus
  pub issues : List OperationRequestValidationIssue
  pub effect_class : OperationEffectClass
  pub target_risk : OperationTargetRisk

abbrev pub operation_request_validation_result :
    Bool
    → OperationRequestStatus
    → List OperationRequestValidationIssue
    → OperationEffectClass
    → OperationTargetRisk
    → OperationRequestValidationResult
operation_request_validation_result accepted' status issues effect_class target_risk = record {
  accepted = accepted';
  status = status;
  issues = issues;
  effect_class = effect_class;
  target_risk = target_risk;
}

pub record OperationRequestEnvelope : Type 0 where
  pub operation_request_id : String
  pub operation_request_uuid : String
  pub request_created_at : String
  pub requested_by : String
  pub conversation_uuid : String
  pub carrier_surface : String
  pub source_ref_set : List String
  pub authority_notice_ref : String
  pub authority_tier : OperationAuthorityTier
  pub freshness_state : OperationFreshnessState
  pub parent_request_ref : String
  pub completion_review_ref : String
  pub supersedes_request_ref_set : List String
  pub source_projection_boundary_ref : String
  pub intended_effect : String
  pub resource_target : String
  pub resource_target_classification : String
  pub risk_classification : String
  pub blast_radius : String
  pub dry_run_required : Bool
  pub rollback_or_abort_route : String
  pub credential_boundary_ref : String
  pub network_boundary_ref : String
  pub human_approval_ref : String
  pub predicted_side_effect_set : List String
  pub stale_after : String
  pub refusal_policy_ref : String
  pub no_live_effect_rule_ref : String
  pub cited_authority_set : List String
  pub authority_notice_state : String
  pub requested_authority_promotion : Bool

abbrev pub operation_request_envelope_texts : OperationRequestEnvelope → Dict
operation_request_envelope_texts e =
    ("operation_request_id", e.operation_request_id)
    ∷ ("operation_request_uuid", e.operation_request_uuid)
    ∷ ("request_created_at", e.request_created_at)
    ∷ ("requested_by", e.requested_by)
    ∷ ("conversation_uuid", e.conversation_uuid)
    ∷ ("carrier_surface", e.carrier_surface)
    ∷ ("authority_notice_ref", e.authority_notice_ref)
    ∷ ("parent_request_ref", e.parent_request_ref)
    ∷ ("completion_review_ref", e.completion_review_ref)
    ∷ ("source_projection_boundary_ref", e.source_projection_boundary_ref)
    ∷ ("intended_effect", e.intended_effect)
    ∷ ("resource_target", e.resource_target)
    ∷ ("resource_target_classification", e.resource_target_classification)
    ∷ ("risk_classification", e.risk_classification)
    ∷ ("blast_radius", e.blast_radius)
    ∷ ("rollback_or_abort_route", e.rollback_or_abort_route)
    ∷ ("credential_boundary_ref", e.credential_boundary_ref)
    ∷ ("network_boundary_ref", e.network_boundary_ref)
    ∷ ("human_approval_ref", e.human_approval_ref)
    ∷ ("stale_after", e.stale_after)
    ∷ ("refusal_policy_ref", e.refusal_policy_ref)
    ∷ ("no_live_effect_rule_ref", e.no_live_effect_rule_ref)
    ∷ ("authority_notice_state", e.authority_notice_state)
    ∷ []

unfoldable pub has_refusal : OperationRequestValidationResult → Bool
unfolding any
has_refusal e = any (λ issue. operation_request_issue_severity_is_refused issue.severity) e.issues

unfoldable pub has_fault : OperationRequestValidationResult → Bool
unfolding any
has_fault e = any (λ issue. operation_request_issue_severity_is_fault issue.severity) e.issues

unfoldable pub has_interrupt : OperationRequestValidationResult → Bool
unfolding any
has_interrupt e =
    any (λ issue. operation_request_issue_severity_is_interrupt issue.severity) e.issues

unfoldable pub requires_review : OperationRequestValidationResult → Bool
unfolding any
requires_review e =
    any (λ issue. operation_request_issue_severity_is_review_required issue.severity) e.issues
