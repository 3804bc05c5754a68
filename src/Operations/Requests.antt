-- ===== src/Operations/Requests.antt =====
-- src/langsop/operations/requests.py: the validation of a dry-run operation request.
pub mod Vocabulary
pub mod Fields
pub mod Records
pub mod Classes
pub mod Boundaries
pub mod Parts
pub mod Status
pub mod Issues
pub mod Tested
pub mod Bounded
pub mod Admission
use lang_sop.Operations.Requests.Records.{
  OperationRequestEnvelope, OperationRequestValidationIssue, OperationRequestValidationResult,
  operation_request_envelope_texts, operation_request_validation_issue,
  operation_request_validation_result,
}
use lang_sop.Operations.Requests.Fields.{
  in_forbidden_authority_tier_set, operation_effect_class_is_blocked_live_effect,
  operation_effect_class_is_unknown, operation_freshness_state_is_fresh,
  operation_request_issue_kind_is_live_effect_requested,
  operation_request_issue_severity_is_blocked, operation_request_issue_severity_is_fault,
  operation_request_issue_severity_is_interrupt, operation_request_issue_severity_is_refused,
  operation_request_issue_severity_is_review_required, operation_request_issue_severity_is_stale,
  operation_request_status_is_accepted, operation_target_risk_is_ambiguous,
  required_operation_request_identity_field_set, required_operation_request_safety_field_set,
}
use lang_sop.Operations.Requests.Vocabulary.{
  OperationEffectClass, OperationRequestIssueKind, OperationRequestIssueSeverity,
  OperationRequestStatus,
}
use lang_sop.Operations.Requests.Classes.{
  classify_intended_effect, classify_resource_target, effect_class, missing_field_issue,
  requires_resource_safety_review, severity_for_freshness, target_risk,
}
use lang_sop.Operations.Requests.Boundaries.{authority_promotion_issues, target_specific_issues}
use lang_sop.Base.{
  List, [], any, contains, if◌then◌else◌, is_empty, is_empty_text, map, not, only_if, some, ◌++◌,
  ◌<>◌, ◌∷◌,
}
use lang_sop.Records.{missing_names}

unfoldable pub operation_request_status_for_issues :
    List OperationRequestValidationIssue → OperationEffectClass → OperationRequestStatus
unfolding any
operation_request_status_for_issues issues effect_class =
    let issue_tuple = issues in
    if any (λ issue. operation_request_issue_severity_is_fault issue.severity) issue_tuple
    then OperationRequestStatus.faulted
    else if any (λ issue. operation_request_issue_kind_is_live_effect_requested issue.issue_kind)
        issue_tuple
    then OperationRequestStatus.blocked_for_live_effect
    else if any (λ issue. operation_request_issue_severity_is_refused issue.severity) issue_tuple
    then OperationRequestStatus.refused
    else if any (λ issue. operation_request_issue_severity_is_interrupt issue.severity) issue_tuple
    then OperationRequestStatus.interrupted
    else if any (λ issue. operation_request_issue_severity_is_stale issue.severity) issue_tuple
    then OperationRequestStatus.stale
    else if any (λ issue. operation_request_issue_severity_is_review_required issue.severity)
        issue_tuple
    then OperationRequestStatus.review_required
    else if any (λ issue. operation_request_issue_severity_is_blocked issue.severity) issue_tuple
    then OperationRequestStatus.blocked
    else if operation_effect_class_is_unknown effect_class
    then OperationRequestStatus.interrupted
    else OperationRequestStatus.accepted

unfoldable pub validate_operation_request_envelope :
    OperationRequestEnvelope → OperationRequestValidationResult
unfolding authority_promotion_issues classify_intended_effect classify_resource_target contains
    effect_class missing_field_issue missing_names operation_request_status_for_issues
    requires_resource_safety_review severity_for_freshness target_specific_issues
validate_operation_request_envelope envelope =
    let target_risk = classify_resource_target envelope.resource_target in
    let issues : List OperationRequestValidationIssue =
      map missing_field_issue (
        missing_names (operation_request_envelope_texts envelope)
          required_operation_request_identity_field_set)
      ++ (map
            (λ field_name.
              operation_request_validation_issue OperationRequestIssueKind.missing_safety_field
                OperationRequestIssueSeverity.fault
                (field_name <> " is required before dry-run operation planning") (some field_name))
            (missing_names (operation_request_envelope_texts envelope)
              required_operation_request_safety_field_set)
          ++ (only_if (is_empty envelope.source_ref_set) (
                operation_request_validation_issue OperationRequestIssueKind.missing_source_ref
                  OperationRequestIssueSeverity.fault
                  "source_ref_set is required before request projection use"
                  (some "source_ref_set"))
              ++ (only_if (is_empty_text envelope.completion_review_ref) (
                    operation_request_validation_issue
                      OperationRequestIssueKind.missing_completion_review
                      OperationRequestIssueSeverity.fault
                      "completion_review_ref is required before request projection use"
                      (some "completion_review_ref"))
                  ++ (only_if (is_empty_text envelope.authority_notice_ref) (
                        operation_request_validation_issue
                          OperationRequestIssueKind.missing_authority_notice
                          OperationRequestIssueSeverity.fault
                          "authority notice ref is required before request projection use"
                          (some "authority_notice_ref"))
                      ++ (only_if
                            (contains envelope.authority_notice_state
                              ("missing" ∷ "missing_or_stale" ∷ "stale" ∷ []))
                            (operation_request_validation_issue
                              OperationRequestIssueKind.stale_authority_notice
                              OperationRequestIssueSeverity.stale
                              "authority notice must be present and fresh"
                              (some "authority_notice_state"))
                          ++ (only_if
                                (not (operation_freshness_state_is_fresh envelope.freshness_state))
                                (operation_request_validation_issue
                                  OperationRequestIssueKind.stale_authority_notice
                                  (severity_for_freshness envelope.freshness_state)
                                  "freshness state must be fresh before request projection is trusted"
                                  (some "freshness_state"))
                              ++ (only_if (in_forbidden_authority_tier_set envelope.authority_tier)
                                    (operation_request_validation_issue
                                      OperationRequestIssueKind.forbidden_authority_tier
                                      OperationRequestIssueSeverity.refused
                                      "operation requests may not claim source, dispatch, credential, network, destructive, or live-control authority"
                                      (some "authority_tier"))
                                  ++ (only_if (not envelope.dry_run_required) (
                                        operation_request_validation_issue
                                          OperationRequestIssueKind.dry_run_not_required
                                          OperationRequestIssueSeverity.refused
                                          "IR7 operation requests must remain dry-run-required"
                                          (some "dry_run_required"))
                                      ++ (only_if
                                            (operation_effect_class_is_blocked_live_effect
                                              (classify_intended_effect envelope.intended_effect))
                                            (operation_request_validation_issue
                                              OperationRequestIssueKind.live_effect_requested
                                              OperationRequestIssueSeverity.refused
                                              "requested effect is a blocked live effect"
                                              (some "intended_effect"))
                                          ++ (only_if
                                                (operation_target_risk_is_ambiguous target_risk)
                                                (operation_request_validation_issue
                                                  OperationRequestIssueKind.ambiguous_resource_target
                                                  OperationRequestIssueSeverity.interrupt
                                                  "resource target is unknown or ambiguous"
                                                  (some "resource_target"))
                                              ++ (only_if
                                                    (is_empty_text envelope.rollback_or_abort_route)
                                                    (operation_request_validation_issue
                                                      OperationRequestIssueKind.missing_rollback_or_abort_route
                                                      OperationRequestIssueSeverity.blocked
                                                      "rollback or abort route is required before operation planning"
                                                      (some "rollback_or_abort_route"))
                                                  ++ ((target_specific_issues envelope)
                                                      ++ ((authority_promotion_issues envelope)
                                                          ++ (only_if
                                                            (requires_resource_safety_review
                                                            envelope)
                                                            (operation_request_validation_issue
                                                            OperationRequestIssueKind.high_risk_review_required
                                                            OperationRequestIssueSeverity.review_required
                                                            "uncertain high-risk request requires IR7-S03 resource safety review"
                                                            (some
                                                            "resource_target")))))))))))))))) in
    let status = operation_request_status_for_issues issues (effect_class envelope) in
    operation_request_validation_result (operation_request_status_is_accepted status) status issues
      (effect_class envelope) target_risk
