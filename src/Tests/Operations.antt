-- ===== src/Tests/Operations.antt =====
-- The theorems of operation requests, approvals, refusals and dry runs at small records.
use lang_sop.Base.{◌≡◌, refl, ◌↔◌, true, false, none, some, List, [], ◌∷◌, is_empty, is_empty_text}
use lang_sop.Operations.Requests.Vocabulary.{
  OperationRequestIssueSeverity, OperationAuthorityTier, OperationFreshnessState,
}
use lang_sop.Operations.Requests.Records.{OperationRequestEnvelope, OperationRequestValidationIssue}
use lang_sop.Operations.Requests.{validate_operation_request_envelope}
use lang_sop.Operations.Requests.Admission.{IsAdmitted, validate_operation_request-IsAdmitted}
use lang_sop.Operations.Safety.Vocabulary.{HumanApprovalState}
use lang_sop.Operations.Safety.Records.{HumanApprovalEnvelope}
use lang_sop.Operations.Safety.Approval.{validate_human_approval_for_request}
use lang_sop.Operations.Safety.Scoped.{IsScoped, validate_human_approval-IsScoped}
use lang_sop.Operations.DryRun.{
  validate_dry_run_result_record, dry_run_result_from_operation_request,
}
use lang_sop.Operations.DryRun.OfValidated.{dry_run-accepted}
use lang_sop.Operations.Refusals.{validate_operation_refusal_record}
use lang_sop.Operations.Refusals.Reasons.{primary_issue}
use lang_sop.Operations.Refusals.Projection.{refusal_record_from_request_validation}
use lang_sop.Operations.Refusals.Primary.{first_by, primary_issue-first_by}
use lang_sop.Operations.Refusals.Recorded.{names_the_request, refusal_record-accepted}

abbrev dry_request : OperationRequestEnvelope
dry_request = record {
  operation_request_id = "operation_request_id-1";
  operation_request_uuid = "operation_request_uuid-1";
  request_created_at = "request_created_at-1";
  requested_by = "requested_by-1";
  conversation_uuid = "conversation_uuid-1";
  carrier_surface = "carrier_surface-1";
  source_ref_set = "source-1" ∷ [];
  authority_notice_ref = "authority_notice_ref-1";
  authority_tier = OperationAuthorityTier.operations_planning_record;
  freshness_state = OperationFreshnessState.fresh;
  parent_request_ref = "parent_request_ref-1";
  completion_review_ref = "completion_review_ref-1";
  supersedes_request_ref_set = [];
  source_projection_boundary_ref = "source_projection_boundary_ref-1";
  intended_effect = "simulate";
  resource_target = "workspace_file";
  resource_target_classification = "resource_target_classification-1";
  risk_classification = "low";
  blast_radius = "narrow";
  dry_run_required = true;
  rollback_or_abort_route = "rollback_or_abort_route-1";
  credential_boundary_ref = "credential_boundary_ref-1";
  network_boundary_ref = "network_boundary_ref-1";
  human_approval_ref = "human_approval_ref-1";
  predicted_side_effect_set = [];
  stale_after = "stale_after-1";
  refusal_policy_ref = "refusal_policy_ref-1";
  no_live_effect_rule_ref = "no_live_effect_rule_ref-1";
  cited_authority_set = [];
  authority_notice_state = "fresh";
  requested_authority_promotion = false;
}

-- A request for a live effect that names no source.
abbrev live_request : OperationRequestEnvelope
live_request = record {
  operation_request_id = "operation_request_id-1";
  operation_request_uuid = "operation_request_uuid-1";
  request_created_at = "request_created_at-1";
  requested_by = "requested_by-1";
  conversation_uuid = "conversation_uuid-1";
  carrier_surface = "carrier_surface-1";
  source_ref_set = [];
  authority_notice_ref = "authority_notice_ref-1";
  authority_tier = OperationAuthorityTier.operations_planning_record;
  freshness_state = OperationFreshnessState.fresh;
  parent_request_ref = "parent_request_ref-1";
  completion_review_ref = "completion_review_ref-1";
  supersedes_request_ref_set = [];
  source_projection_boundary_ref = "source_projection_boundary_ref-1";
  intended_effect = "gpu_control";
  resource_target = "gpu";
  resource_target_classification = "resource_target_classification-1";
  risk_classification = "low";
  blast_radius = "narrow";
  dry_run_required = true;
  rollback_or_abort_route = "rollback_or_abort_route-1";
  credential_boundary_ref = "credential_boundary_ref-1";
  network_boundary_ref = "network_boundary_ref-1";
  human_approval_ref = "human_approval_ref-1";
  predicted_side_effect_set = [];
  stale_after = "stale_after-1";
  refusal_policy_ref = "refusal_policy_ref-1";
  no_live_effect_rule_ref = "no_live_effect_rule_ref-1";
  cited_authority_set = [];
  authority_notice_state = "fresh";
  requested_authority_promotion = false;
}

dry_request_is_accepted : (validate_operation_request_envelope dry_request).accepted ≡ true
unfolding validate_operation_request_envelope
dry_request_is_accepted = refl

live_request_is_not : (validate_operation_request_envelope live_request).accepted ≡ false
unfolding validate_operation_request_envelope
live_request_is_not = refl

validate_operation_request-IsAdmitted_example :
    ((validate_operation_request_envelope dry_request).accepted ≡ true) ↔ IsAdmitted dry_request
validate_operation_request-IsAdmitted_example = validate_operation_request-IsAdmitted dry_request

-- No state is given to this approval.
abbrev absent_approval : HumanApprovalEnvelope
absent_approval = record {
  human_approval_id = "human_approval_id-1";
  approved_by = "approved_by-1";
  approved_at = "approved_at-1";
  approved_operation_request_ref = "operation_request_id-1";
  approved_intended_effect = "simulate";
  approved_resource_target = "workspace_file";
  authority_notice_ref = "authority_notice_ref-1";
  risk_classification = "risk_classification-1";
  blast_radius_ref = "blast_radius_ref-1";
  rollback_or_abort_route_ref = "rollback_or_abort_route_ref-1";
  expiration_or_stale_after = "expiration_or_stale_after-1";
  explicit_limit_set = "limit-1" ∷ [];
  revocation_route = "revocation_route-1";
  approval_state = HumanApprovalState.absent;
  broad_approval_requested = false;
  live_control_authority_claimed = false;
}

absent_approval_passes :
    is_empty (validate_human_approval_for_request absent_approval dry_request) ≡ true
unfolding validate_human_approval_for_request
absent_approval_passes = refl

validate_human_approval-IsScoped_example :
    (is_empty (validate_human_approval_for_request absent_approval dry_request) ≡ true)
    ↔ IsScoped absent_approval dry_request
validate_human_approval-IsScoped_example =
    validate_human_approval-IsScoped absent_approval dry_request

has_summary : is_empty_text "nothing was changed" ≡ false
has_summary = refl

has_estimate : is_empty_text "no resources" ≡ false
has_estimate = refl

dry_run-accepted_example :
    (validate_dry_run_result_record (
      dry_run_result_from_operation_request dry_request
        (some (validate_operation_request_envelope dry_request))
        "nothing was changed"
        "no resources"
        "output-1")).accepted
    ≡ (validate_operation_request_envelope dry_request).accepted
dry_run-accepted_example =
    dry_run-accepted dry_request "nothing was changed" "no resources" "output-1" has_summary
      has_estimate

abbrev live_issues : List OperationRequestValidationIssue
live_issues = (validate_operation_request_envelope live_request).issues

primary_issue-first_by_example :
    primary_issue live_issues
    ≡ first_by
        (OperationRequestIssueSeverity.fault ∷ OperationRequestIssueSeverity.refused
          ∷ OperationRequestIssueSeverity.interrupt ∷ OperationRequestIssueSeverity.stale
          ∷ OperationRequestIssueSeverity.review_required ∷ OperationRequestIssueSeverity.blocked
          ∷ [])
        live_issues
primary_issue-first_by_example = primary_issue-first_by live_issues

refusal_record-accepted_example :
    (validate_operation_refusal_record (
      refusal_record_from_request_validation live_request
        (validate_operation_request_envelope live_request)
        none)).accepted
    ≡ names_the_request live_request
refusal_record-accepted_example =
    refusal_record-accepted live_request (validate_operation_request_envelope live_request)
