-- ===== src/Operations/Requests/Fields.antt =====
-- The field sets, effect sets and target sets of src/langsop/operations/requests.py, and tests on its enumerations.
use lang_sop.Operations.Requests.Vocabulary.{
  OperationAuthorityTier, OperationEffectClass, OperationFreshnessState, OperationRequestIssueKind,
  OperationRequestIssueSeverity, OperationRequestStatus, OperationTargetRisk,
}
use lang_sop.Base.{Bool, List, String, [], false, true, ◌∷◌}

abbrev pub safe_dry_run_effect_set : List String
safe_dry_run_effect_set =
    "inspect" ∷ "simulate" ∷ "estimate_resource_use" ∷ "classify_risk" ∷ "prepare_dry_run" ∷ []

abbrev pub blocked_live_effect_set : List String
blocked_live_effect_set =
    "command_execution" ∷ "process_control" ∷ "gpu_control" ∷ "gpu_workload_launch"
    ∷ "gpu_workload_cancel" ∷ "gpu_scheduler_mutation" ∷ "live_process_start" ∷ "live_process_stop"
    ∷ "live_process_priority_change" ∷ "model_runtime_start" ∷ "model_runtime_stop"
    ∷ "model_runtime_install" ∷ "model_runtime_upgrade" ∷ "model_runtime_configuration_mutation"
    ∷ "model_runtime_mutation" ∷ "job_dispatch" ∷ "job_cancellation"
    ∷ "job_dispatch_or_cancellation" ∷ "credential_access_or_mutation" ∷ "credential_mutation"
    ∷ "network_exposure_mutation" ∷ "network_mutation" ∷ "destructive_filesystem_action"
    ∷ "persistent_operations_automation" ∷ "agent_dispatch" ∷ "operations_control"
    ∷ "live_machine_control" ∷ []

abbrev pub target_kind_set : List String
target_kind_set =
    "workspace_file" ∷ "process" ∷ "gpu" ∷ "model_runtime" ∷ "job_queue" ∷ "credential_or_secret"
    ∷ "network_service" ∷ "filesystem_destructive_target" ∷ "coordination_claim"
    ∷ "mailbox_carrier_context" ∷ "generated_projection" ∷ "unknown_or_ambiguous" ∷ []

abbrev pub high_risk_target_set : List String
high_risk_target_set =
    "process" ∷ "gpu" ∷ "model_runtime" ∷ "job_queue" ∷ "credential_or_secret" ∷ "network_service"
    ∷ "filesystem_destructive_target" ∷ "unknown_or_ambiguous" ∷ []

abbrev pub required_operation_request_identity_field_set : List String
required_operation_request_identity_field_set =
    "operation_request_id" ∷ "operation_request_uuid" ∷ "request_created_at" ∷ "requested_by"
    ∷ "conversation_uuid" ∷ "carrier_surface" ∷ "source_ref_set" ∷ "authority_notice_ref"
    ∷ "authority_tier" ∷ "freshness_state" ∷ "parent_request_ref" ∷ "completion_review_ref"
    ∷ "supersedes_request_ref_set" ∷ "source_projection_boundary_ref" ∷ []

abbrev pub required_operation_request_safety_field_set : List String
required_operation_request_safety_field_set =
    "intended_effect" ∷ "resource_target" ∷ "resource_target_classification" ∷ "risk_classification"
    ∷ "blast_radius" ∷ "dry_run_required" ∷ "rollback_or_abort_route" ∷ "credential_boundary_ref"
    ∷ "network_boundary_ref" ∷ "human_approval_ref" ∷ "predicted_side_effect_set" ∷ "stale_after"
    ∷ "refusal_policy_ref" ∷ "no_live_effect_rule_ref" ∷ []

abbrev pub in_forbidden_authority_tier_set : OperationAuthorityTier → Bool
in_forbidden_authority_tier_set OperationAuthorityTier.source_authority = true
in_forbidden_authority_tier_set OperationAuthorityTier.live_control_authority = true
in_forbidden_authority_tier_set OperationAuthorityTier.dispatch_authority = true
in_forbidden_authority_tier_set OperationAuthorityTier.credential_authority = true
in_forbidden_authority_tier_set OperationAuthorityTier.network_authority = true
in_forbidden_authority_tier_set OperationAuthorityTier.destructive_filesystem_authority = true
in_forbidden_authority_tier_set other = false

abbrev pub operation_request_issue_severity_is_refused : OperationRequestIssueSeverity → Bool
operation_request_issue_severity_is_refused OperationRequestIssueSeverity.refused = true
operation_request_issue_severity_is_refused other = false

abbrev pub operation_request_issue_severity_is_fault : OperationRequestIssueSeverity → Bool
operation_request_issue_severity_is_fault OperationRequestIssueSeverity.fault = true
operation_request_issue_severity_is_fault other = false

abbrev pub operation_request_issue_severity_is_interrupt : OperationRequestIssueSeverity → Bool
operation_request_issue_severity_is_interrupt OperationRequestIssueSeverity.interrupt = true
operation_request_issue_severity_is_interrupt other = false

abbrev pub operation_request_issue_severity_is_review_required :
    OperationRequestIssueSeverity → Bool
operation_request_issue_severity_is_review_required OperationRequestIssueSeverity.review_required =
    true
operation_request_issue_severity_is_review_required other = false

abbrev pub operation_freshness_state_is_stale : OperationFreshnessState → Bool
operation_freshness_state_is_stale OperationFreshnessState.stale = true
operation_freshness_state_is_stale other = false

abbrev pub operation_freshness_state_is_interrupted : OperationFreshnessState → Bool
operation_freshness_state_is_interrupted OperationFreshnessState.interrupted = true
operation_freshness_state_is_interrupted other = false

abbrev pub operation_freshness_state_is_faulted : OperationFreshnessState → Bool
operation_freshness_state_is_faulted OperationFreshnessState.faulted = true
operation_freshness_state_is_faulted other = false

abbrev pub operation_target_risk_is_high : OperationTargetRisk → Bool
operation_target_risk_is_high OperationTargetRisk.high = true
operation_target_risk_is_high other = false

abbrev pub operation_effect_class_is_safe_dry_run : OperationEffectClass → Bool
operation_effect_class_is_safe_dry_run OperationEffectClass.safe_dry_run = true
operation_effect_class_is_safe_dry_run other = false

abbrev pub operation_effect_class_is_unknown : OperationEffectClass → Bool
operation_effect_class_is_unknown OperationEffectClass.unknown = true
operation_effect_class_is_unknown other = false

abbrev pub operation_request_issue_severity_is_blocked : OperationRequestIssueSeverity → Bool
operation_request_issue_severity_is_blocked OperationRequestIssueSeverity.blocked = true
operation_request_issue_severity_is_blocked other = false

abbrev pub operation_request_issue_severity_is_stale : OperationRequestIssueSeverity → Bool
operation_request_issue_severity_is_stale OperationRequestIssueSeverity.stale = true
operation_request_issue_severity_is_stale other = false

abbrev pub operation_request_issue_kind_is_live_effect_requested : OperationRequestIssueKind → Bool
operation_request_issue_kind_is_live_effect_requested
      OperationRequestIssueKind.live_effect_requested =
    true
operation_request_issue_kind_is_live_effect_requested other = false

abbrev pub operation_freshness_state_is_fresh : OperationFreshnessState → Bool
operation_freshness_state_is_fresh OperationFreshnessState.fresh = true
operation_freshness_state_is_fresh other = false

abbrev pub operation_effect_class_is_blocked_live_effect : OperationEffectClass → Bool
operation_effect_class_is_blocked_live_effect OperationEffectClass.blocked_live_effect = true
operation_effect_class_is_blocked_live_effect other = false

abbrev pub operation_target_risk_is_ambiguous : OperationTargetRisk → Bool
operation_target_risk_is_ambiguous OperationTargetRisk.ambiguous = true
operation_target_risk_is_ambiguous other = false

abbrev pub operation_request_status_is_accepted : OperationRequestStatus → Bool
operation_request_status_is_accepted OperationRequestStatus.accepted = true
operation_request_status_is_accepted other = false
