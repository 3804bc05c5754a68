-- ===== src/Operations/Refusals/Records.antt =====
-- The records of src/langsop/operations/refusals.py.
use lang_sop.Operations.Refusals.Vocabulary.{
  OperationRefusalOutput, OperationRefusalReason, OperationRefusalValidationIssueKind,
  OperationRefusalValidationSeverity,
}
use lang_sop.Base.{Bool, List, Option, String, [], ◌∷◌}
use lang_sop.Records.{Dict}

pub record OperationRefusalRecord : Type 0 where
  pub refusal_id : String
  pub operation_request_ref : String
  pub requested_effect : String
  pub resource_target : String
  pub actor_ref : String
  pub carrier_surface : String
  pub authority_notice_ref : String
  pub refusal_reason : OperationRefusalReason
  pub refused_effect_set : List String
  pub safe_next_route : String
  pub evidence_ref_set : List String
  pub non_authority_notice : String
  pub refusal_output_set : List OperationRefusalOutput
  pub live_effect_performed : Bool
  pub command_generated : Bool

abbrev pub operation_refusal_record_texts : OperationRefusalRecord → Dict
operation_refusal_record_texts e =
    ("refusal_id", e.refusal_id)
    ∷ ("operation_request_ref", e.operation_request_ref)
    ∷ ("requested_effect", e.requested_effect)
    ∷ ("resource_target", e.resource_target)
    ∷ ("actor_ref", e.actor_ref)
    ∷ ("carrier_surface", e.carrier_surface)
    ∷ ("authority_notice_ref", e.authority_notice_ref)
    ∷ ("safe_next_route", e.safe_next_route)
    ∷ ("non_authority_notice", e.non_authority_notice)
    ∷ []

pub record SopFirstInterruptContext : Type 0 where
  pub interrupt_id : String
  pub operation_request_ref : String
  pub interrupt_reason : OperationRefusalReason
  pub evidence_ref_set : List String
  pub required_route_set : List String
  pub non_authority_notice : String

pub record OperationRefusalValidationIssue : Type 0 where
  pub issue_kind : OperationRefusalValidationIssueKind
  pub severity : OperationRefusalValidationSeverity
  pub reason : String
  pub field_name : Option String

abbrev pub operation_refusal_validation_issue :
    OperationRefusalValidationIssueKind
    → OperationRefusalValidationSeverity
    → String
    → Option String
    → OperationRefusalValidationIssue
operation_refusal_validation_issue issue_kind severity reason field_name = record {
  issue_kind = issue_kind;
  severity = severity;
  reason = reason;
  field_name = field_name;
}

pub record OperationRefusalValidation : Type 0 where
  pub accepted : Bool
  pub issues : List OperationRefusalValidationIssue

abbrev pub operation_refusal_validation :
    Bool → List OperationRefusalValidationIssue → OperationRefusalValidation
operation_refusal_validation accepted' issues = record { accepted = accepted'; issues = issues }
