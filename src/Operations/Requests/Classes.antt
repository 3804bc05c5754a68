-- ===== src/Operations/Requests/Classes.antt =====
-- The classes of effects and of targets, of src/langsop/operations/requests.py.
use lang_sop.Operations.Requests.Records.{
  OperationRequestEnvelope, OperationRequestValidationIssue, operation_request_validation_issue,
}
use lang_sop.Operations.Requests.Fields.{
  blocked_live_effect_set, high_risk_target_set, operation_effect_class_is_safe_dry_run,
  operation_freshness_state_is_faulted, operation_freshness_state_is_interrupted,
  operation_freshness_state_is_stale, operation_target_risk_is_high, safe_dry_run_effect_set,
  target_kind_set,
}
use lang_sop.Operations.Requests.Vocabulary.{
  OperationEffectClass, OperationFreshnessState, OperationRequestIssueKind,
  OperationRequestIssueSeverity, OperationTargetRisk,
}
use lang_sop.Base.{
  Bool, String, [], contains, false, if◌then◌else◌, is_empty, not, some, ◌<>◌, ◌==◌, ◌||◌, ◌∷◌,
}

unfoldable pub missing_field_issue : String → OperationRequestValidationIssue
missing_field_issue field_name =
    operation_request_validation_issue OperationRequestIssueKind.missing_field
      OperationRequestIssueSeverity.fault (field_name <> " is required") (some field_name)

unfoldable pub severity_for_freshness : OperationFreshnessState → OperationRequestIssueSeverity
severity_for_freshness freshness_state =
    if operation_freshness_state_is_faulted freshness_state
    then OperationRequestIssueSeverity.fault
    else if operation_freshness_state_is_interrupted freshness_state
    then OperationRequestIssueSeverity.interrupt
    else if operation_freshness_state_is_stale freshness_state
    then OperationRequestIssueSeverity.stale
    else OperationRequestIssueSeverity.blocked

unfoldable pub classify_intended_effect : String → OperationEffectClass
unfolding contains
classify_intended_effect intended_effect =
    if contains intended_effect safe_dry_run_effect_set
    then OperationEffectClass.safe_dry_run
    else if contains intended_effect blocked_live_effect_set
    then OperationEffectClass.blocked_live_effect
    else OperationEffectClass.unknown

unfoldable pub classify_resource_target : String → OperationTargetRisk
unfolding contains
classify_resource_target resource_target =
    if (resource_target == "unknown_or_ambiguous") || not (contains resource_target target_kind_set)
    then OperationTargetRisk.ambiguous
    else if contains resource_target high_risk_target_set
    then OperationTargetRisk.high
    else OperationTargetRisk.low

unfoldable pub effect_class : OperationRequestEnvelope → OperationEffectClass
effect_class e = classify_intended_effect e.intended_effect

unfoldable pub target_risk : OperationRequestEnvelope → OperationTargetRisk
target_risk e = classify_resource_target e.resource_target

unfoldable pub requires_resource_safety_review : OperationRequestEnvelope → Bool
unfolding contains effect_class target_risk
requires_resource_safety_review envelope =
    if not (operation_effect_class_is_safe_dry_run (effect_class envelope))
    then false
    else if not (operation_target_risk_is_high (target_risk envelope))
    then false
    else (not (is_empty envelope.predicted_side_effect_set)
        || ((contains envelope.blast_radius ("uncertain" ∷ "wide" ∷ "critical" ∷ "unknown" ∷ []))
            || (contains envelope.risk_classification ("critical" ∷ "high" ∷ "unknown" ∷ []))))
