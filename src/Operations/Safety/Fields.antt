-- ===== src/Operations/Safety/Fields.antt =====
-- The field sets and other sets of src/langsop/operations/resource_safety.py, and tests on its enumerations.
use lang_sop.Operations.Safety.Vocabulary.{
  HumanApprovalState, ResourceRiskLevel, ResourceSafetyIssueKind, ResourceSafetyIssueSeverity,
  ResourceTargetSafetyClass,
}
use lang_sop.Operations.Requests.Vocabulary.{OperationFreshnessState}
use lang_sop.Base.{Bool, List, String, [], false, true, ◌∷◌}

abbrev pub required_blast_radius_field_set : List String
required_blast_radius_field_set =
    "affected_resource_set" ∷ "expected_duration" ∷ "cost_or_utilization_estimate"
    ∷ "possible_side_effect_set" ∷ "rollback_or_abort_route_ref" ∷ "monitoring_signal_set"
    ∷ "owner_or_human_contact_ref" ∷ "stale_after" ∷ "authority_notice_ref" ∷ []

abbrev pub required_rollback_route_field_set : List String
required_rollback_route_field_set =
    "rollback_or_abort_route_id" ∷ "abort_condition_set" ∷ "rollback_step_set"
    ∷ "safe_shutdown_condition" ∷ "monitoring_signal_set" ∷ "owner_or_human_contact_ref"
    ∷ "stale_after" ∷ "authority_notice_ref" ∷ "affected_resource_set" ∷ []

abbrev pub required_human_approval_field_set : List String
required_human_approval_field_set =
    "human_approval_id" ∷ "approved_by" ∷ "approved_at" ∷ "approved_operation_request_ref"
    ∷ "approved_intended_effect" ∷ "approved_resource_target" ∷ "authority_notice_ref"
    ∷ "risk_classification" ∷ "blast_radius_ref" ∷ "rollback_or_abort_route_ref"
    ∷ "expiration_or_stale_after" ∷ "explicit_limit_set" ∷ "revocation_route" ∷ []

abbrev pub critical_target_set : List String
critical_target_set =
    "credential_or_secret" ∷ "network_service" ∷ "filesystem_destructive_target" ∷ []

abbrev pub human_approval_state_is_broad_invalid : HumanApprovalState → Bool
human_approval_state_is_broad_invalid HumanApprovalState.broad_invalid = true
human_approval_state_is_broad_invalid other = false

abbrev pub human_approval_state_is_stale : HumanApprovalState → Bool
human_approval_state_is_stale HumanApprovalState.stale = true
human_approval_state_is_stale other = false

abbrev pub human_approval_state_is_revoked : HumanApprovalState → Bool
human_approval_state_is_revoked HumanApprovalState.revoked = true
human_approval_state_is_revoked other = false

abbrev pub human_approval_state_is_mismatched : HumanApprovalState → Bool
human_approval_state_is_mismatched HumanApprovalState.mismatched = true
human_approval_state_is_mismatched other = false

abbrev pub resource_target_safety_class_is_low_risk : ResourceTargetSafetyClass → Bool
resource_target_safety_class_is_low_risk ResourceTargetSafetyClass.low_risk = true
resource_target_safety_class_is_low_risk other = false

abbrev pub resource_target_safety_class_is_medium_risk : ResourceTargetSafetyClass → Bool
resource_target_safety_class_is_medium_risk ResourceTargetSafetyClass.medium_risk = true
resource_target_safety_class_is_medium_risk other = false

abbrev pub resource_target_safety_class_is_high_risk : ResourceTargetSafetyClass → Bool
resource_target_safety_class_is_high_risk ResourceTargetSafetyClass.high_risk = true
resource_target_safety_class_is_high_risk other = false

abbrev pub resource_target_safety_class_is_critical_risk : ResourceTargetSafetyClass → Bool
resource_target_safety_class_is_critical_risk ResourceTargetSafetyClass.critical_risk = true
resource_target_safety_class_is_critical_risk other = false

abbrev pub operation_freshness_state_is_fresh : OperationFreshnessState → Bool
operation_freshness_state_is_fresh OperationFreshnessState.fresh = true
operation_freshness_state_is_fresh other = false

abbrev pub resource_risk_level_is_high_or_critical_or_unknown : ResourceRiskLevel → Bool
resource_risk_level_is_high_or_critical_or_unknown ResourceRiskLevel.high = true
resource_risk_level_is_high_or_critical_or_unknown ResourceRiskLevel.critical = true
resource_risk_level_is_high_or_critical_or_unknown ResourceRiskLevel.unknown = true
resource_risk_level_is_high_or_critical_or_unknown other = false

abbrev pub resource_safety_issue_kind_is_missing_authority_notice_or_live_control_implication :
    ResourceSafetyIssueKind → Bool
resource_safety_issue_kind_is_missing_authority_notice_or_live_control_implication
      ResourceSafetyIssueKind.missing_authority_notice =
    true
resource_safety_issue_kind_is_missing_authority_notice_or_live_control_implication
      ResourceSafetyIssueKind.live_control_implication =
    true
resource_safety_issue_kind_is_missing_authority_notice_or_live_control_implication other = false

abbrev pub resource_safety_issue_kind_is_stale_approval_or_another : ResourceSafetyIssueKind → Bool
resource_safety_issue_kind_is_stale_approval_or_another
      ResourceSafetyIssueKind.broad_standing_approval =
    true
resource_safety_issue_kind_is_stale_approval_or_another ResourceSafetyIssueKind.stale_approval =
    true
resource_safety_issue_kind_is_stale_approval_or_another ResourceSafetyIssueKind.revoked_approval =
    true
resource_safety_issue_kind_is_stale_approval_or_another
      ResourceSafetyIssueKind.mismatched_intended_effect =
    true
resource_safety_issue_kind_is_stale_approval_or_another
      ResourceSafetyIssueKind.mismatched_resource_target =
    true
resource_safety_issue_kind_is_stale_approval_or_another other = false

abbrev pub resource_safety_issue_kind_is_missing_rollback_or_abort_route :
    ResourceSafetyIssueKind → Bool
resource_safety_issue_kind_is_missing_rollback_or_abort_route
      ResourceSafetyIssueKind.missing_rollback_or_abort_route =
    true
resource_safety_issue_kind_is_missing_rollback_or_abort_route other = false

abbrev pub resource_safety_issue_kind_is_missing_blast_radius_or_unknown_blast_radius :
    ResourceSafetyIssueKind → Bool
resource_safety_issue_kind_is_missing_blast_radius_or_unknown_blast_radius
      ResourceSafetyIssueKind.missing_blast_radius =
    true
resource_safety_issue_kind_is_missing_blast_radius_or_unknown_blast_radius
      ResourceSafetyIssueKind.unknown_blast_radius =
    true
resource_safety_issue_kind_is_missing_blast_radius_or_unknown_blast_radius other = false

abbrev pub resource_safety_issue_severity_is_refused : ResourceSafetyIssueSeverity → Bool
resource_safety_issue_severity_is_refused ResourceSafetyIssueSeverity.refused = true
resource_safety_issue_severity_is_refused other = false

abbrev pub resource_safety_issue_severity_is_critical : ResourceSafetyIssueSeverity → Bool
resource_safety_issue_severity_is_critical ResourceSafetyIssueSeverity.critical = true
resource_safety_issue_severity_is_critical other = false
