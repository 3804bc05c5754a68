-- ===== src/Operators/Classify.antt =====
-- How src/langsop/operators/runner.py classifies a validation and names its issues.
use lang_sop.Base.{
  String, ◌<>◌, Bool, false, not, ◌&&◌, Option, none, some, List, [], ◌∷◌, ◌==◌, find?, contains,
  is_empty_text, if◌then◌else◌,
}
use lang_sop.Operators.Values.{get, string_tuple}
use lang_sop.Operators.Contracts.{
  OutcomeKind, success, blocked_output, fault_output, sop_first_interrupt, missing_field,
  invalid_field, stale_authority, undeclared_output, unsafe_operation, generated_authority,
  unsupported_scope, ambiguous_identity, IssueSeverity, OperatorContract, OperatorRequest,
  ContractIssue, ContractValidationResult, is_fault, is_interrupt, is_blocked, has_fault,
  has_interrupt, has_blocker,
}
use lang_sop.Operators.Results.{Payload, mapping_payload, other_payload}

unfoldable pub outcome_from_validation : ContractValidationResult → OutcomeKind
unfolding has_fault has_interrupt has_blocker
outcome_from_validation v =
    if has_fault v
    then fault_output
    else if has_interrupt v
    then sop_first_interrupt
    else if has_blocker v
    then blocked_output
    else success

abbrev pub has_severity_for : OutcomeKind → ContractIssue → Bool
has_severity_for sop_first_interrupt = is_interrupt
has_severity_for blocked_output = is_blocked
has_severity_for _ = is_fault

abbrev not_accepted_issue : ContractIssue
not_accepted_issue = record {
  issue_kind = invalid_field;
  severity = IssueSeverity.fault;
  reason = "operator request was not accepted";
  field_name = none;
}

abbrev first_or_default : List ContractIssue → ContractIssue
first_or_default [] = not_accepted_issue
first_or_default (i ∷ is) = i

unfoldable pub primary_issue_for_outcome : List ContractIssue → OutcomeKind → ContractIssue
unfolding find? is_fault is_interrupt is_blocked
primary_issue_for_outcome issues outcome = elim (find? (has_severity_for outcome) issues) [
  | some i ↦ i
  | none ↦ first_or_default issues
]

unfoldable pub success_output_from : List String → List String → String
unfolding contains
success_output_from [] declared = "operator_result"
success_output_from (kind ∷ kinds) declared =
    if contains kind declared && not (kind == "operator_trace")
    then kind
    else success_output_from kinds declared

unfoldable pub success_output_kind : OperatorRequest → OperatorContract → String
unfolding success_output_from contains
success_output_kind r c =
    if contains "operator_result" r.expected_output_kind_set
    then "operator_result"
    else success_output_from r.expected_output_kind_set c.output_record_kind_set

unfoldable pub generated_output_refs : Payload → List String
unfolding get string_tuple
generated_output_refs (mapping_payload m) = elim (get m "generated_output_ref_set") [
  | none ↦ []
  | some v ↦ string_tuple v
]
generated_output_refs (other_payload v) = []

abbrev names_version : Option String → Bool
names_version none = false
names_version (some f) = f == "requested_operator_version"

unfoldable pub issue_public_kind : ContractIssue → String
issue_public_kind i = elim i.issue_kind [
  | stale_authority ↦ "stale_refusal"
  | missing_field ↦
      if names_version i.field_name then "missing_contract_version" else "invalid_input_shape"
  | unsupported_scope ↦ "unsupported_scope"
  | generated_authority ↦ "generated_trace_authority_confusion"
  | undeclared_output ↦ "operator_contract_violation"
  | unsafe_operation ↦ "unsupported_operations_control"
  | ambiguous_identity ↦ "ambiguous_identity"
  | invalid_field ↦ "invalid_input_shape"
]

abbrev or_unknown : Option String → String
or_unknown none = "unknown"
or_unknown (some f) = if is_empty_text f then "unknown" else f

unfoldable pub required_resolution : ContractIssue → String
required_resolution i = elim i.issue_kind [
  | stale_authority ↦ "refresh authority basis and rerun from accepted source"
  | missing_field ↦
      "supply required field " <> (or_unknown i.field_name <> " from accepted authority")
  | unsupported_scope ↦ "narrow request to the accepted activation boundary or open a new slice"
  | _ ↦ "repair request according to accepted SOP authority before retry"
]
