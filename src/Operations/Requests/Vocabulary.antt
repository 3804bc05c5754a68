-- ===== src/Operations/Requests/Vocabulary.antt =====
-- The enumerations of src/langsop/operations/requests.py.
use lang_sop.Base.{String}

pub data OperationFreshnessState : Type 0 where
  fresh pending_review stale unknown interrupted faulted : OperationFreshnessState

unfoldable pub operation_freshness_state_value : OperationFreshnessState → String
operation_freshness_state_value fresh = "fresh"
operation_freshness_state_value pending_review = "pending_review"
operation_freshness_state_value stale = "stale"
operation_freshness_state_value unknown = "unknown"
operation_freshness_state_value interrupted = "interrupted"
operation_freshness_state_value faulted = "faulted"

pub data OperationAuthorityTier : Type 0 where
  operations_planning_record source_authority live_control_authority : OperationAuthorityTier
  dispatch_authority credential_authority network_authority : OperationAuthorityTier
  destructive_filesystem_authority : OperationAuthorityTier

unfoldable pub operation_authority_tier_value : OperationAuthorityTier → String
operation_authority_tier_value operations_planning_record = "operations_planning_record"
operation_authority_tier_value source_authority = "source_authority"
operation_authority_tier_value live_control_authority = "live_control_authority"
operation_authority_tier_value dispatch_authority = "dispatch_authority"
operation_authority_tier_value credential_authority = "credential_authority"
operation_authority_tier_value network_authority = "network_authority"
operation_authority_tier_value destructive_filesystem_authority = "destructive_filesystem_authority"

pub data OperationEffectClass : Type 0 where
  safe_dry_run blocked_live_effect unknown : OperationEffectClass

unfoldable pub operation_effect_class_value : OperationEffectClass → String
operation_effect_class_value safe_dry_run = "safe_dry_run"
operation_effect_class_value blocked_live_effect = "blocked_live_effect"
operation_effect_class_value unknown = "unknown"

pub data OperationTargetRisk : Type 0 where
  low high ambiguous : OperationTargetRisk

unfoldable pub operation_target_risk_value : OperationTargetRisk → String
operation_target_risk_value low = "low"
operation_target_risk_value high = "high"
operation_target_risk_value ambiguous = "ambiguous"

pub data OperationRequestIssueKind : Type 0 where
  missing_field missing_authority_notice stale_authority_notice : OperationRequestIssueKind
  forbidden_authority_tier missing_source_ref : OperationRequestIssueKind
  missing_completion_review missing_safety_field : OperationRequestIssueKind
  ambiguous_resource_target live_effect_requested : OperationRequestIssueKind
  high_risk_review_required missing_rollback_or_abort_route : OperationRequestIssueKind
  credential_boundary_touched network_exposure_requested : OperationRequestIssueKind
  destructive_action_possible coordination_claim_promoted_to_dispatch : OperationRequestIssueKind
  mailbox_carrier_promoted_to_dispatch : OperationRequestIssueKind
  generated_projection_promoted_to_authority dry_run_not_required : OperationRequestIssueKind

unfoldable pub operation_request_issue_kind_value : OperationRequestIssueKind → String
operation_request_issue_kind_value missing_field = "missing_field"
operation_request_issue_kind_value missing_authority_notice = "missing_authority_notice"
operation_request_issue_kind_value stale_authority_notice = "stale_authority_notice"
operation_request_issue_kind_value forbidden_authority_tier = "forbidden_authority_tier"
operation_request_issue_kind_value missing_source_ref = "missing_source_ref"
operation_request_issue_kind_value missing_completion_review = "missing_completion_review"
operation_request_issue_kind_value missing_safety_field = "missing_required_safety_field"
operation_request_issue_kind_value ambiguous_resource_target = "ambiguous_resource_target"
operation_request_issue_kind_value live_effect_requested = "live_effect_requested"
operation_request_issue_kind_value high_risk_review_required =
    "high_risk_target_without_IR7-S03_review"
operation_request_issue_kind_value missing_rollback_or_abort_route =
    "missing_rollback_or_abort_route"
operation_request_issue_kind_value credential_boundary_touched = "credential_boundary_touched"
operation_request_issue_kind_value network_exposure_requested = "network_exposure_requested"
operation_request_issue_kind_value destructive_action_possible = "destructive_action_possible"
operation_request_issue_kind_value coordination_claim_promoted_to_dispatch =
    "coordination_claim_promoted_to_dispatch"
operation_request_issue_kind_value mailbox_carrier_promoted_to_dispatch =
    "mailbox_carrier_promoted_to_dispatch"
operation_request_issue_kind_value generated_projection_promoted_to_authority =
    "generated_projection_promoted_to_authority"
operation_request_issue_kind_value dry_run_not_required = "dry_run_not_required"

pub data OperationRequestIssueSeverity : Type 0 where
  blocked stale fault interrupt refused review_required : OperationRequestIssueSeverity

unfoldable pub operation_request_issue_severity_value : OperationRequestIssueSeverity → String
operation_request_issue_severity_value blocked = "blocked"
operation_request_issue_severity_value stale = "stale"
operation_request_issue_severity_value fault = "fault"
operation_request_issue_severity_value interrupt = "interrupt"
operation_request_issue_severity_value refused = "refused"
operation_request_issue_severity_value review_required = "review_required"

pub data OperationRequestStatus : Type 0 where
  accepted blocked blocked_for_live_effect faulted interrupted refused : OperationRequestStatus
  review_required stale : OperationRequestStatus

unfoldable pub operation_request_status_value : OperationRequestStatus → String
operation_request_status_value accepted = "accepted"
operation_request_status_value blocked = "blocked"
operation_request_status_value blocked_for_live_effect = "blocked_for_live_effect"
operation_request_status_value faulted = "faulted"
operation_request_status_value interrupted = "interrupted"
operation_request_status_value refused = "refused"
operation_request_status_value review_required = "review_required"
operation_request_status_value stale = "stale"
