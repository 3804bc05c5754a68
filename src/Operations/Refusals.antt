-- ===== src/Operations/Refusals.antt =====
-- src/langsop/operations/refusals.py: the route of a refusal, its interrupt context and its check.
pub mod Vocabulary
pub mod Fields
pub mod Records
pub mod Reasons
pub mod Projection
pub mod Primary
pub mod Recorded
use lang_sop.Operations.Refusals.Records.{
  OperationRefusalRecord, OperationRefusalValidation, OperationRefusalValidationIssue,
  SopFirstInterruptContext, operation_refusal_record_texts, operation_refusal_validation,
  operation_refusal_validation_issue,
}
use lang_sop.Operations.Refusals.Fields.{
  interrupt_non_authority_notice,
  operation_refusal_reason_is_high_risk_target_without_ir7_s03_review_or_another,
  operation_refusal_reason_is_missing_required_identity_field_or_another,
  operation_refusal_reason_is_stale_authority_notice, refusal_non_authority_notice,
  required_refusal_record_field_set,
}
use lang_sop.Operations.Refusals.Vocabulary.{
  OperationRefusalReason, OperationRefusalValidationIssueKind, OperationRefusalValidationSeverity,
}
use lang_sop.Operations.Requests.Classes.{missing_field_issue}
use lang_sop.Base.{
  List, String, [], if◌then◌else◌, is_empty, map, not, only_if, some, ◌++◌, ◌<>◌, ◌==◌, ◌||◌, ◌∷◌,
}
use lang_sop.Records.{missing_names}

unfoldable pub safe_next_route_for_reason : OperationRefusalReason → String
safe_next_route_for_reason reason =
    if operation_refusal_reason_is_high_risk_target_without_ir7_s03_review_or_another reason
    then "IR7-S03_resource_safety_review"
    else if operation_refusal_reason_is_missing_required_identity_field_or_another reason
    then "repair_operation_request"
    else if operation_refusal_reason_is_stale_authority_notice reason
    then "refresh_authority_notice_or_rebake"
    else "SOP_first_interrupt_and_completion_review"

unfoldable pub sop_first_interrupt_context_from_refusal :
    OperationRefusalRecord → List String → SopFirstInterruptContext
sop_first_interrupt_context_from_refusal refusal required_route_set =
    let route_set =
      if not (is_empty required_route_set)
      then required_route_set
      else refusal.safe_next_route ∷ [] in
    record {
      interrupt_id = refusal.refusal_id <> ":interrupt";
      operation_request_ref = refusal.operation_request_ref;
      interrupt_reason = refusal.refusal_reason;
      evidence_ref_set = refusal.evidence_ref_set;
      required_route_set = route_set;
      non_authority_notice = interrupt_non_authority_notice;
    }

unfoldable pub validate_operation_refusal_record :
    OperationRefusalRecord → OperationRefusalValidation
unfolding missing_names
validate_operation_refusal_record given =
    let issues : List OperationRefusalValidationIssue =
      map
        (λ field_name.
          operation_refusal_validation_issue OperationRefusalValidationIssueKind.missing_field
            OperationRefusalValidationSeverity.fault (field_name <> " is required")
            (some field_name))
        (missing_names (operation_refusal_record_texts given) required_refusal_record_field_set)
      ++ (only_if (not (given.non_authority_notice == refusal_non_authority_notice)) (
            operation_refusal_validation_issue
              OperationRefusalValidationIssueKind.missing_non_authority_notice
              OperationRefusalValidationSeverity.fault
              "refusal record must carry the accepted non-authority notice"
              (some "non_authority_notice"))
          ++ (only_if (given.live_effect_performed || given.command_generated) (
              operation_refusal_validation_issue
                OperationRefusalValidationIssueKind.command_or_live_effect_claimed
                OperationRefusalValidationSeverity.refused
                "refusal records must remain records and cannot become commands"
                (some "live_effect_performed")))) in
    operation_refusal_validation (is_empty issues) issues
