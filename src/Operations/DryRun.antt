-- ===== src/Operations/DryRun.antt =====
-- src/langsop/operations/dry_run.py: the result of a dry run, projected from a request, and its check.
pub mod Vocabulary
pub mod Fields
pub mod Records
pub mod OfRequest
pub mod Parts
pub mod OfValidated
use lang_sop.Operations.DryRun.OfRequest.{
  requires_human_approval, result_status_for_request_validation,
}
use lang_sop.Operations.DryRun.Records.{
  DryRunResultIssue, DryRunResultRecord, DryRunResultValidation, dry_run_result_issue,
  dry_run_result_record_texts, dry_run_result_validation,
}
use lang_sop.Operations.DryRun.Fields.{
  dry_run_result_issue_severity_is_blocked, dry_run_result_issue_severity_is_fault,
  dry_run_result_issue_severity_is_refused, dry_run_result_status_is_accepted,
  in_forbidden_result_authority_tier_set, non_authority_notice, required_dry_run_result_field_set,
}
use lang_sop.Operations.DryRun.Vocabulary.{
  DryRunResultIssueKind, DryRunResultIssueSeverity, DryRunResultStatus,
}
use lang_sop.Operations.Requests.Records.{
  OperationRequestEnvelope, OperationRequestValidationResult,
}
use lang_sop.Operations.Requests.Vocabulary.{
  OperationAuthorityTier, operation_request_issue_kind_value,
}
use lang_sop.Operations.Requests.Classes.{missing_field_issue}
use lang_sop.Base.{
  List, Option, String, [], any, false, if◌then◌else◌, keep, map, none, not, only_if, some, true,
  ◌++◌, ◌<>◌, ◌==◌, ◌||◌,
}
use lang_sop.Text.Sets.{distinct, sorted}
use lang_sop.Records.{missing_names}

unfoldable pub validation_status_for_issues :
    List DryRunResultIssue → DryRunResultStatus → DryRunResultStatus
unfolding any
validation_status_for_issues issues current_status =
    let issue_tuple = issues in
    if any (λ issue. dry_run_result_issue_severity_is_fault issue.severity) issue_tuple
    then DryRunResultStatus.faulted
    else if any (λ issue. dry_run_result_issue_severity_is_refused issue.severity) issue_tuple
    then DryRunResultStatus.refused
    else if any (λ issue. dry_run_result_issue_severity_is_blocked issue.severity) issue_tuple
    then DryRunResultStatus.blocked
    else current_status

unfoldable pub validate_dry_run_result_record : DryRunResultRecord → DryRunResultValidation
unfolding keep missing_names validation_status_for_issues
validate_dry_run_result_record given =
    let issues : List DryRunResultIssue =
      map
        (λ field_name.
          dry_run_result_issue DryRunResultIssueKind.missing_field DryRunResultIssueSeverity.fault
            (field_name <> " is required") (some field_name))
        (missing_names (dry_run_result_record_texts given)
          (keep (λ name. not (name == "generated_output_ref")) required_dry_run_result_field_set))
      ++ (only_if given.live_effect_performed (
            dry_run_result_issue DryRunResultIssueKind.live_effect_performed
              DryRunResultIssueSeverity.refused "dry-run results must never report a live effect"
              (some "live_effect_performed"))
          ++ (only_if (not given.completion_review_required) (
                dry_run_result_issue DryRunResultIssueKind.missing_completion_review
                  DryRunResultIssueSeverity.blocked
                  "completion review is required before dry-run records can support planning"
                  (some "completion_review_required"))
              ++ (only_if (not (given.non_authority_notice == non_authority_notice)) (
                    dry_run_result_issue DryRunResultIssueKind.missing_non_authority_notice
                      DryRunResultIssueSeverity.fault
                      "dry-run result must carry the accepted non-authority notice"
                      (some "non_authority_notice"))
                  ++ (only_if
                      ((in_forbidden_result_authority_tier_set given.authority_tier)
                        || given.authority_promotion_claimed)
                      (dry_run_result_issue DryRunResultIssueKind.authority_promotion
                        DryRunResultIssueSeverity.refused
                        "dry-run result may not claim source, dispatch, credential, network, destructive, or live-control authority"
                        (some "authority_tier")))))) in
    let status = validation_status_for_issues issues given.review_status in
    dry_run_result_validation (dry_run_result_status_is_accepted status) status issues

-- The two local variables that a validation that is not accepted sets.
abbrev refused_effects : Option OperationRequestValidationResult → List String
refused_effects none = []
refused_effects (some v) =
    if v.accepted
    then []
    else sorted (distinct (map (λ i. operation_request_issue_kind_value i.issue_kind) v.issues))

abbrev status_of_request : Option OperationRequestValidationResult → DryRunResultStatus
status_of_request none = DryRunResultStatus.accepted
status_of_request (some v) =
    if v.accepted then DryRunResultStatus.accepted else result_status_for_request_validation v

unfoldable pub dry_run_result_from_operation_request :
    OperationRequestEnvelope
    → Option OperationRequestValidationResult
    → String
    → String
    → String
    → DryRunResultRecord
unfolding sorted distinct operation_request_issue_kind_value result_status_for_request_validation
    requires_human_approval
dry_run_result_from_operation_request envelope validation simulated_effect_summary
      estimated_resource_use generated_output_ref =
    record {
      dry_run_result_id = envelope.operation_request_id <> ":dry-run";
      dry_run_result_uuid = envelope.operation_request_uuid <> ":dry-run";
      operation_request_ref = envelope.operation_request_id;
      source_ref_set = envelope.source_ref_set;
      authority_notice_ref = envelope.authority_notice_ref;
      simulated_effect_summary = simulated_effect_summary;
      resource_target_ref = envelope.resource_target;
      risk_classification = envelope.risk_classification;
      estimated_resource_use = estimated_resource_use;
      predicted_side_effect_set = envelope.predicted_side_effect_set;
      refused_effect_set = refused_effects validation;
      required_human_approval = requires_human_approval envelope validation;
      rollback_or_abort_route = envelope.rollback_or_abort_route;
      live_effect_performed = false;
      generated_output_ref = generated_output_ref;
      completion_review_required = true;
      non_authority_notice = non_authority_notice;
      stale_after = envelope.stale_after;
      authority_tier = OperationAuthorityTier.operations_planning_record;
      review_status = status_of_request validation;
      authority_promotion_claimed = false;
    }
