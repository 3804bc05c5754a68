-- ===== src/Operations/Safety/Risk.antt =====
-- The class of a target and the risk of a request, of src/langsop/operations/resource_safety.py.
use lang_sop.Operations.Safety.Records.{BlastRadiusEnvelope}
use lang_sop.Operations.Safety.Fields.{
  critical_target_set, operation_freshness_state_is_fresh,
  resource_risk_level_is_high_or_critical_or_unknown, resource_target_safety_class_is_critical_risk,
  resource_target_safety_class_is_high_risk, resource_target_safety_class_is_low_risk,
  resource_target_safety_class_is_medium_risk,
}
use lang_sop.Operations.Safety.Vocabulary.{ResourceRiskLevel, ResourceTargetSafetyClass}
use lang_sop.Operations.Requests.Records.{OperationRequestEnvelope}
use lang_sop.Operations.Requests.Fields.{blocked_live_effect_set, high_risk_target_set}
use lang_sop.Base.{
  Bool, Option, String, [], contains, if◌then◌else◌, is_empty_text, is_some, not, test_some, ◌&&◌,
  ◌==◌, ◌||◌, ◌∷◌,
}

unfoldable pub classify_resource_target_safety : String → ResourceTargetSafetyClass
unfolding contains
classify_resource_target_safety resource_target_kind =
    if contains resource_target_kind ("workspace_file" ∷ "tracked_fixture_source" ∷ [])
    then ResourceTargetSafetyClass.low_risk
    else if resource_target_kind == "generated_projection_root"
    then ResourceTargetSafetyClass.medium_risk
    else if contains resource_target_kind critical_target_set
    then ResourceTargetSafetyClass.critical_risk
    else if (contains resource_target_kind high_risk_target_set)
        || (contains resource_target_kind ("coordination_claim" ∷ "mailbox_carrier_context" ∷ []))
    then ResourceTargetSafetyClass.high_risk
    else ResourceTargetSafetyClass.unknown_or_ambiguous

unfoldable pub has_critical_boundary : OperationRequestEnvelope → Bool
unfolding contains
has_critical_boundary request =
    ((contains request.resource_target critical_target_set)
      || ((contains request.intended_effect blocked_live_effect_set)
          || (contains "secret_value_present" request.predicted_side_effect_set)))

unfoldable pub risk_level_for_request :
    OperationRequestEnvelope → Option BlastRadiusEnvelope → ResourceRiskLevel
unfolding classify_resource_target_safety contains has_critical_boundary
risk_level_for_request request blast_radius =
    if has_critical_boundary request
    then ResourceRiskLevel.critical
    else if not (operation_freshness_state_is_fresh request.freshness_state)
        || is_empty_text request.authority_notice_ref
    then ResourceRiskLevel.critical
    else if is_empty_text request.rollback_or_abort_route
    then ResourceRiskLevel.critical
    else if contains request.blast_radius ("unknown" ∷ "uncertain" ∷ [])
    then ResourceRiskLevel.critical
    else if not (is_some blast_radius) && (contains request.resource_target high_risk_target_set)
    then ResourceRiskLevel.high
    else if test_some
        (λ blast_radius. contains blast_radius.blast_radius_state ("unknown" ∷ "uncertain" ∷ []))
        blast_radius
    then ResourceRiskLevel.critical
    else let target_class = classify_resource_target_safety request.resource_target in
      if resource_target_safety_class_is_critical_risk target_class
      then ResourceRiskLevel.critical
      else if resource_target_safety_class_is_high_risk target_class
      then ResourceRiskLevel.high
      else if resource_target_safety_class_is_medium_risk target_class
      then ResourceRiskLevel.medium
      else if resource_target_safety_class_is_low_risk target_class
      then ResourceRiskLevel.low
      else ResourceRiskLevel.unknown

unfoldable pub requires_human_review : OperationRequestEnvelope → Option BlastRadiusEnvelope → Bool
unfolding risk_level_for_request
requires_human_review request blast_radius =
    let risk = risk_level_for_request request blast_radius in
    (resource_risk_level_is_high_or_critical_or_unknown risk)
