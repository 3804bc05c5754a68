-- ===== src/Operations/Refusals/Fields.antt =====
-- The field sets and other sets of src/langsop/operations/refusals.py, and tests on its enumerations.
use lang_sop.Operations.Refusals.Vocabulary.{OperationRefusalReason}
use lang_sop.Base.{Bool, List, String, [], false, true, ◌∷◌}

abbrev pub refusal_non_authority_notice : String
refusal_non_authority_notice = "refusal_record_is_evidence_not_command"

abbrev pub interrupt_non_authority_notice : String
interrupt_non_authority_notice = "sop_first_interrupt_context_is_review_evidence_not_live_authority"

abbrev pub required_refusal_record_field_set : List String
required_refusal_record_field_set =
    "refusal_id" ∷ "operation_request_ref" ∷ "requested_effect" ∷ "resource_target" ∷ "actor_ref"
    ∷ "carrier_surface" ∷ "authority_notice_ref" ∷ "refusal_reason" ∷ "refused_effect_set"
    ∷ "safe_next_route" ∷ "evidence_ref_set" ∷ "non_authority_notice" ∷ []

abbrev pub operation_refusal_reason_is_stale_authority_notice : OperationRefusalReason → Bool
operation_refusal_reason_is_stale_authority_notice OperationRefusalReason.stale_authority_notice =
    true
operation_refusal_reason_is_stale_authority_notice other = false

abbrev pub operation_refusal_reason_is_missing_required_identity_field_or_another :
    OperationRefusalReason → Bool
operation_refusal_reason_is_missing_required_identity_field_or_another
      OperationRefusalReason.missing_required_identity_field =
    true
operation_refusal_reason_is_missing_required_identity_field_or_another
      OperationRefusalReason.missing_required_safety_field =
    true
operation_refusal_reason_is_missing_required_identity_field_or_another
      OperationRefusalReason.missing_rollback_or_abort_route =
    true
operation_refusal_reason_is_missing_required_identity_field_or_another other = false

abbrev pub operation_refusal_reason_is_high_risk_target_without_ir7_s03_review_or_another :
    OperationRefusalReason → Bool
operation_refusal_reason_is_high_risk_target_without_ir7_s03_review_or_another
      OperationRefusalReason.high_risk_target_without_ir7_s03_review =
    true
operation_refusal_reason_is_high_risk_target_without_ir7_s03_review_or_another
      OperationRefusalReason.credential_boundary_touched =
    true
operation_refusal_reason_is_high_risk_target_without_ir7_s03_review_or_another
      OperationRefusalReason.network_exposure_requested =
    true
operation_refusal_reason_is_high_risk_target_without_ir7_s03_review_or_another
      OperationRefusalReason.destructive_action_possible =
    true
operation_refusal_reason_is_high_risk_target_without_ir7_s03_review_or_another other = false

abbrev pub operation_refusal_reason_is_repairable : OperationRefusalReason → Bool
operation_refusal_reason_is_repairable OperationRefusalReason.missing_required_identity_field = true
operation_refusal_reason_is_repairable OperationRefusalReason.missing_required_safety_field = true
operation_refusal_reason_is_repairable OperationRefusalReason.stale_authority_notice = true
operation_refusal_reason_is_repairable OperationRefusalReason.ambiguous_resource_target = true
operation_refusal_reason_is_repairable OperationRefusalReason.missing_rollback_or_abort_route = true
operation_refusal_reason_is_repairable other = false

abbrev pub operation_refusal_reason_is_live_control : OperationRefusalReason → Bool
operation_refusal_reason_is_live_control OperationRefusalReason.live_effect_requested = true
operation_refusal_reason_is_live_control
      OperationRefusalReason.generated_projection_promoted_to_authority =
    true
operation_refusal_reason_is_live_control other = false
