-- ===== src/Operations/Safety/Vocabulary.antt =====
-- The enumerations of src/langsop/operations/resource_safety.py.
use lang_sop.Base.{String}

pub data ResourceRiskLevel : Type 0 where
  low medium high critical unknown : ResourceRiskLevel

unfoldable pub resource_risk_level_value : ResourceRiskLevel → String
resource_risk_level_value low = "low"
resource_risk_level_value medium = "medium"
resource_risk_level_value high = "high"
resource_risk_level_value critical = "critical"
resource_risk_level_value unknown = "unknown"

pub data ResourceTargetSafetyClass : Type 0 where
  low_risk medium_risk high_risk critical_risk unknown_or_ambiguous : ResourceTargetSafetyClass

unfoldable pub resource_target_safety_class_value : ResourceTargetSafetyClass → String
resource_target_safety_class_value low_risk = "low_risk"
resource_target_safety_class_value medium_risk = "medium_risk"
resource_target_safety_class_value high_risk = "high_risk"
resource_target_safety_class_value critical_risk = "critical_risk"
resource_target_safety_class_value unknown_or_ambiguous = "unknown_or_ambiguous"

pub data HumanApprovalState : Type 0 where
  absent requested fresh_scoped stale revoked mismatched broad_invalid : HumanApprovalState

unfoldable pub human_approval_state_value : HumanApprovalState → String
human_approval_state_value absent = "absent"
human_approval_state_value requested = "requested"
human_approval_state_value fresh_scoped = "fresh_scoped"
human_approval_state_value stale = "stale"
human_approval_state_value revoked = "revoked"
human_approval_state_value mismatched = "mismatched"
human_approval_state_value broad_invalid = "broad_invalid"

pub data ResourceSafetyIssueKind : Type 0 where
  broad_standing_approval stale_approval revoked_approval : ResourceSafetyIssueKind
  mismatched_intended_effect mismatched_resource_target : ResourceSafetyIssueKind
  missing_blast_radius unknown_blast_radius : ResourceSafetyIssueKind
  missing_rollback_or_abort_route missing_authority_notice : ResourceSafetyIssueKind
  credential_boundary_unreviewed network_boundary_unreviewed : ResourceSafetyIssueKind
  destructive_action_possible live_control_implication : ResourceSafetyIssueKind
  secret_value_present monitoring_signal_missing : ResourceSafetyIssueKind

unfoldable pub resource_safety_issue_kind_value : ResourceSafetyIssueKind → String
resource_safety_issue_kind_value broad_standing_approval = "broad_standing_approval"
resource_safety_issue_kind_value stale_approval = "stale_approval"
resource_safety_issue_kind_value revoked_approval = "revoked_approval"
resource_safety_issue_kind_value mismatched_intended_effect = "mismatched_intended_effect"
resource_safety_issue_kind_value mismatched_resource_target = "mismatched_resource_target"
resource_safety_issue_kind_value missing_blast_radius = "missing_blast_radius"
resource_safety_issue_kind_value unknown_blast_radius = "unknown_blast_radius"
resource_safety_issue_kind_value missing_rollback_or_abort_route = "missing_rollback_or_abort_route"
resource_safety_issue_kind_value missing_authority_notice = "missing_authority_notice"
resource_safety_issue_kind_value credential_boundary_unreviewed = "credential_boundary_unreviewed"
resource_safety_issue_kind_value network_boundary_unreviewed = "network_boundary_unreviewed"
resource_safety_issue_kind_value destructive_action_possible = "destructive_action_possible"
resource_safety_issue_kind_value live_control_implication = "live_control_implication"
resource_safety_issue_kind_value secret_value_present = "secret_value_present"
resource_safety_issue_kind_value monitoring_signal_missing = "monitoring_signal_missing"

pub data ResourceSafetyIssueSeverity : Type 0 where
  blocked critical interrupt refused review_required : ResourceSafetyIssueSeverity

unfoldable pub resource_safety_issue_severity_value : ResourceSafetyIssueSeverity → String
resource_safety_issue_severity_value blocked = "blocked"
resource_safety_issue_severity_value critical = "critical"
resource_safety_issue_severity_value interrupt = "interrupt"
resource_safety_issue_severity_value refused = "refused"
resource_safety_issue_severity_value review_required = "review_required"
