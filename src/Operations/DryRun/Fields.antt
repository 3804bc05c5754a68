-- ===== src/Operations/DryRun/Fields.antt =====
-- The field sets and other sets of src/langsop/operations/dry_run.py, and tests on its enumerations.
use lang_sop.Operations.DryRun.Vocabulary.{DryRunResultIssueSeverity, DryRunResultStatus}
use lang_sop.Operations.Requests.Vocabulary.{OperationAuthorityTier}
use lang_sop.Base.{Bool, List, String, [], false, true, ◌∷◌}

abbrev pub non_authority_notice : String
non_authority_notice = "dry_run_result_is_planning_evidence_not_live_approval"

abbrev pub required_dry_run_result_field_set : List String
required_dry_run_result_field_set =
    "dry_run_result_id" ∷ "dry_run_result_uuid" ∷ "operation_request_ref" ∷ "source_ref_set"
    ∷ "authority_notice_ref" ∷ "simulated_effect_summary" ∷ "resource_target_ref"
    ∷ "risk_classification" ∷ "estimated_resource_use" ∷ "predicted_side_effect_set"
    ∷ "refused_effect_set" ∷ "required_human_approval" ∷ "rollback_or_abort_route"
    ∷ "live_effect_performed" ∷ "generated_output_ref" ∷ "completion_review_required"
    ∷ "non_authority_notice" ∷ "stale_after" ∷ []

abbrev pub dry_run_result_issue_severity_is_blocked : DryRunResultIssueSeverity → Bool
dry_run_result_issue_severity_is_blocked DryRunResultIssueSeverity.blocked = true
dry_run_result_issue_severity_is_blocked other = false

abbrev pub dry_run_result_issue_severity_is_refused : DryRunResultIssueSeverity → Bool
dry_run_result_issue_severity_is_refused DryRunResultIssueSeverity.refused = true
dry_run_result_issue_severity_is_refused other = false

abbrev pub dry_run_result_issue_severity_is_fault : DryRunResultIssueSeverity → Bool
dry_run_result_issue_severity_is_fault DryRunResultIssueSeverity.fault = true
dry_run_result_issue_severity_is_fault other = false

abbrev pub in_forbidden_result_authority_tier_set : OperationAuthorityTier → Bool
in_forbidden_result_authority_tier_set OperationAuthorityTier.source_authority = true
in_forbidden_result_authority_tier_set OperationAuthorityTier.live_control_authority = true
in_forbidden_result_authority_tier_set OperationAuthorityTier.dispatch_authority = true
in_forbidden_result_authority_tier_set OperationAuthorityTier.credential_authority = true
in_forbidden_result_authority_tier_set OperationAuthorityTier.network_authority = true
in_forbidden_result_authority_tier_set OperationAuthorityTier.destructive_filesystem_authority =
    true
in_forbidden_result_authority_tier_set other = false

abbrev pub dry_run_result_status_is_accepted : DryRunResultStatus → Bool
dry_run_result_status_is_accepted DryRunResultStatus.accepted = true
dry_run_result_status_is_accepted other = false

abbrev pub operation_authority_tier_is_operations_planning_record : OperationAuthorityTier → Bool
operation_authority_tier_is_operations_planning_record
      OperationAuthorityTier.operations_planning_record =
    true
operation_authority_tier_is_operations_planning_record other = false
