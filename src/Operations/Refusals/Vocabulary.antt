-- ===== src/Operations/Refusals/Vocabulary.antt =====
-- The enumerations of src/langsop/operations/refusals.py.
use lang_sop.Base.{String}

pub data OperationRefusalReason : Type 0 where
  missing_required_identity_field missing_required_safety_field : OperationRefusalReason
  stale_authority_notice stale_boundary_input ambiguous_resource_target : OperationRefusalReason
  live_effect_requested high_risk_target_without_ir7_s03_review : OperationRefusalReason
  missing_rollback_or_abort_route credential_boundary_touched : OperationRefusalReason
  network_exposure_requested destructive_action_possible : OperationRefusalReason
  coordination_claim_promoted_to_dispatch : OperationRefusalReason
  mailbox_carrier_promoted_to_dispatch : OperationRefusalReason
  generated_projection_promoted_to_authority : OperationRefusalReason

unfoldable pub operation_refusal_reason_value : OperationRefusalReason → String
operation_refusal_reason_value missing_required_identity_field = "missing_required_identity_field"
operation_refusal_reason_value missing_required_safety_field = "missing_required_safety_field"
operation_refusal_reason_value stale_authority_notice = "stale_authority_notice"
operation_refusal_reason_value stale_boundary_input = "stale_boundary_input"
operation_refusal_reason_value ambiguous_resource_target = "ambiguous_resource_target"
operation_refusal_reason_value live_effect_requested = "live_effect_requested"
operation_refusal_reason_value high_risk_target_without_ir7_s03_review =
    "high_risk_target_without_IR7-S03_review"
operation_refusal_reason_value missing_rollback_or_abort_route = "missing_rollback_or_abort_route"
operation_refusal_reason_value credential_boundary_touched = "credential_boundary_touched"
operation_refusal_reason_value network_exposure_requested = "network_exposure_requested"
operation_refusal_reason_value destructive_action_possible = "destructive_action_possible"
operation_refusal_reason_value coordination_claim_promoted_to_dispatch =
    "coordination_claim_promoted_to_dispatch"
operation_refusal_reason_value mailbox_carrier_promoted_to_dispatch =
    "mailbox_carrier_promoted_to_dispatch"
operation_refusal_reason_value generated_projection_promoted_to_authority =
    "generated_projection_promoted_to_authority"

pub data OperationRefusalOutput : Type 0 where
  refused_operation_request blocked_operation_request : OperationRefusalOutput
  refused_live_control refused_gpu_control refused_model_runtime_control : OperationRefusalOutput
  refused_job_control refused_credential_control refused_network_control : OperationRefusalOutput
  refused_destructive_filesystem_control required_resource_safety_review : OperationRefusalOutput
  required_human_review sop_first_interrupt_context : OperationRefusalOutput

unfoldable pub operation_refusal_output_value : OperationRefusalOutput → String
operation_refusal_output_value refused_operation_request = "refused_operation_request"
operation_refusal_output_value blocked_operation_request = "blocked_operation_request"
operation_refusal_output_value refused_live_control = "refused_live_control"
operation_refusal_output_value refused_gpu_control = "refused_gpu_control"
operation_refusal_output_value refused_model_runtime_control = "refused_model_runtime_control"
operation_refusal_output_value refused_job_control = "refused_job_control"
operation_refusal_output_value refused_credential_control = "refused_credential_control"
operation_refusal_output_value refused_network_control = "refused_network_control"
operation_refusal_output_value refused_destructive_filesystem_control =
    "refused_destructive_filesystem_control"
operation_refusal_output_value required_resource_safety_review = "required_resource_safety_review"
operation_refusal_output_value required_human_review = "required_human_review"
operation_refusal_output_value sop_first_interrupt_context = "sop_first_interrupt_context"

pub data OperationRefusalValidationIssueKind : Type 0 where
  missing_field missing_non_authority_notice : OperationRefusalValidationIssueKind
  command_or_live_effect_claimed : OperationRefusalValidationIssueKind

unfoldable pub operation_refusal_validation_issue_kind_value :
    OperationRefusalValidationIssueKind → String
operation_refusal_validation_issue_kind_value missing_field = "missing_field"
operation_refusal_validation_issue_kind_value missing_non_authority_notice =
    "missing_non_authority_notice"
operation_refusal_validation_issue_kind_value command_or_live_effect_claimed =
    "command_or_live_effect_claimed"

pub data OperationRefusalValidationSeverity : Type 0 where
  fault refused : OperationRefusalValidationSeverity

unfoldable pub operation_refusal_validation_severity_value :
    OperationRefusalValidationSeverity → String
operation_refusal_validation_severity_value fault = "fault"
operation_refusal_validation_severity_value refused = "refused"
