-- ===== src/Operations/Refusals/Projection.antt =====
-- The refusal record of a request, of src/langsop/operations/refusals.py.
use lang_sop.Operations.Refusals.{safe_next_route_for_reason}
use lang_sop.Operations.Refusals.Reasons.{primary_issue, refusal_reason_for_issue}
use lang_sop.Operations.Refusals.Records.{OperationRefusalRecord}
use lang_sop.Operations.Refusals.Fields.{
  operation_refusal_reason_is_live_control, operation_refusal_reason_is_repairable,
  refusal_non_authority_notice,
}
use lang_sop.Operations.Refusals.Vocabulary.{
  OperationRefusalOutput, OperationRefusalReason, operation_refusal_output_value,
}
use lang_sop.Operations.Requests.Records.{
  OperationRequestEnvelope, OperationRequestValidationResult, requires_review,
}
use lang_sop.Operations.Requests.Vocabulary.{operation_request_issue_kind_value}
use lang_sop.Text.Sets.{distinct, sorted, text_leb}
use lang_sop.Base.{
  Bool, List, Option, String, [], contains, false, if◌then◌else◌, is_missing, map, only_if,
  or_empty, sort_by, ◌++◌, ◌<>◌, ◌==◌, ◌||◌, ◌∷◌,
}
use lang_sop.Text.{starts_with}

-- The control that the last chain of tests refuses.
abbrev refused_control : String → String → OperationRefusalReason → List OperationRefusalOutput
refused_control target effect reason =
    if (target == "gpu") || starts_with effect "gpu_"
    then OperationRefusalOutput.refused_gpu_control ∷ []
    else if (target == "model_runtime") || starts_with effect "model_runtime_"
    then OperationRefusalOutput.refused_model_runtime_control ∷ []
    else if (target == "job_queue")
        || contains effect
            ("job_dispatch" ∷ "job_cancellation" ∷ "job_dispatch_or_cancellation" ∷ [])
    then OperationRefusalOutput.refused_job_control ∷ []
    else if (target == "credential_or_secret") || (effect == "credential_access_or_mutation")
    then OperationRefusalOutput.refused_credential_control ∷ []
    else if (target == "network_service") || (effect == "network_exposure_mutation")
    then OperationRefusalOutput.refused_network_control ∷ []
    else if (target == "filesystem_destructive_target")
        || (effect == "destructive_filesystem_action")
    then OperationRefusalOutput.refused_destructive_filesystem_control ∷ []
    else only_if (operation_refusal_reason_is_live_control reason)
        OperationRefusalOutput.refused_live_control

abbrev value_leb : OperationRefusalOutput → OperationRefusalOutput → Bool
value_leb a b = text_leb (operation_refusal_output_value a) (operation_refusal_output_value b)

-- The set of outputs is a list: every member is added at one place only, so that none is there twice.
unfoldable pub refusal_output_set_for_request :
    OperationRequestEnvelope
    → OperationRefusalReason
    → OperationRequestValidationResult
    → List OperationRefusalOutput
unfolding starts_with contains requires_review sort_by text_leb operation_refusal_output_value
refusal_output_set_for_request envelope reason validation = sort_by value_leb (
    (OperationRefusalOutput.refused_operation_request
      ∷ OperationRefusalOutput.sop_first_interrupt_context ∷ [])
    ++ ((if requires_review validation
          then OperationRefusalOutput.required_resource_safety_review
            ∷ OperationRefusalOutput.required_human_review ∷ []
          else [])
        ++ (only_if (operation_refusal_reason_is_repairable reason)
              OperationRefusalOutput.blocked_operation_request
            ++ refused_control envelope.resource_target envelope.intended_effect reason)))

unfoldable pub evidence_ref_set_for_validation :
    OperationRequestEnvelope → OperationRequestValidationResult → List String
unfolding sorted distinct operation_request_issue_kind_value
evidence_ref_set_for_validation envelope validation = sorted (
    distinct (
      envelope.source_ref_set
      ++ (envelope.operation_request_id
          ∷ map (λ i. operation_request_issue_kind_value i.issue_kind) validation.issues)))

-- `refusal_id or ...`
abbrev id_or : Option String → String → String
id_or given default = if is_missing given then default else or_empty given

-- The enumerations of the constructor take members as they are, and its other defaults are written out.
unfoldable pub refusal_record_from_request_validation :
    OperationRequestEnvelope
    → OperationRequestValidationResult
    → Option String
    → OperationRefusalRecord
unfolding primary_issue refusal_reason_for_issue refusal_output_set_for_request
    safe_next_route_for_reason evidence_ref_set_for_validation operation_refusal_output_value
    or_empty
refusal_record_from_request_validation envelope validation refusal_id =
    let reason = refusal_reason_for_issue (primary_issue validation.issues) in
    let output_set = refusal_output_set_for_request envelope reason validation in
    record {
      refusal_id = id_or refusal_id (envelope.operation_request_id <> ":refusal");
      operation_request_ref = envelope.operation_request_id;
      requested_effect = envelope.intended_effect;
      resource_target = envelope.resource_target;
      actor_ref = envelope.requested_by;
      carrier_surface = envelope.carrier_surface;
      authority_notice_ref = envelope.authority_notice_ref;
      refusal_reason = reason;
      refused_effect_set = map operation_refusal_output_value output_set;
      safe_next_route = safe_next_route_for_reason reason;
      evidence_ref_set = evidence_ref_set_for_validation envelope validation;
      non_authority_notice = refusal_non_authority_notice;
      refusal_output_set = output_set;
      live_effect_performed = false;
      command_generated = false;
    }
