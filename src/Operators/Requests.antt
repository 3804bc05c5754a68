-- ===== src/Operators/Requests.antt =====
-- `request_from_mapping` of src/langsop/operators/contracts.py.
pub mod RoundTrip
pub mod Shape
pub mod Readable
use lang_sop.Base.{
  String, ◌<>◌, Bool, true, false, Option, none, some, List, [], ◌∷◌, ◌==◌, if◌then◌else◌, is_empty,
  is_some,
}
use lang_sop.Operators.Values.{
  Object, boolean, text, sequence, Mapping, get, to_str, text_repr, Converted, value, raised, ◌>>=◌,
  as_string_sequence, as_bool, optional_str,
}
use lang_sop.Operators.Contracts.{
  OutcomeKind, success, blocked_output, fault_output, sop_first_interrupt, missing_field,
  invalid_field, IssueSeverity, OperatorRequest, ContractIssue, issue, ContractValidationResult,
  required_request_fields,
}

abbrev pub missing_issue : String → ContractIssue
missing_issue name =
    issue missing_field IssueSeverity.fault ("missing required request field: " <> name) name

-- The comprehension over the required fields.
unfoldable pub missing_fields : Mapping → List String → List ContractIssue
unfolding get
missing_fields m [] = []
missing_fields m (name ∷ names) =
    let rest = missing_fields m names in
    if is_some (get m name) then rest else missing_issue name ∷ rest

-- `OutcomeKind(s)`
unfoldable pub outcome_kind_of : String → Converted OutcomeKind
unfolding text_repr
outcome_kind_of s =
    if s == "success"
    then value success
    else if s == "blocked_output"
    then value blocked_output
    else if s == "fault_output"
    then value fault_output
    else if s == "sop_first_interrupt"
    then value sop_first_interrupt
    else raised (text_repr s <> " is not a valid OutcomeKind")

-- `data[key]` of a key that is there, and `data.get(key, default)`.
abbrev get_or : Mapping → String → Object → Object
get_or m key default = elim (get m key) [ none ↦ default | some v ↦ v ]

abbrev required : Mapping → String → Object
required m key = get_or m key Object.none_value

-- The constructor call: its arguments are converted from left to right.
unfoldable pub build_request : Mapping → Converted OperatorRequest
unfolding get to_str outcome_kind_of as_string_sequence as_bool optional_str
build_request m = do
  kind ← outcome_kind_of (to_str (required m "requested_outcome_kind"))
  inputs ← as_string_sequence (required m "input_ref_set")
  basis ← as_string_sequence (required m "authority_basis_ref_set")
  outputs ← as_string_sequence (required m "expected_output_kind_set")
  refusal ← as_bool (required m "refusal_allowed")
  unsafe ← as_string_sequence (get_or m "unsafe_operation_set" (sequence "()" []))
  presented ← as_bool (get_or m "generated_projection_presented_as_authority" (boolean false))
  value (record {
    request_id = to_str (required m "request_id");
    request_uuid = to_str (required m "request_uuid");
    slice_id = to_str (required m "slice_id");
    requested_operator_id = to_str (required m "requested_operator_id");
    requested_operator_version = to_str (required m "requested_operator_version");
    requested_outcome_kind = kind;
    input_ref_set = inputs;
    authority_basis_ref_set = basis;
    expected_output_kind_set = outputs;
    generated_output_policy_ref = to_str (required m "generated_output_policy_ref");
    safety_limit_ref = to_str (required m "safety_limit_ref");
    refusal_allowed = refusal;
    completion_review_ref = optional_str (get m "completion_review_ref");
    model_route = optional_str (get m "model_route");
    authority_basis_state = to_str (get_or m "authority_basis_state" (text "current"));
    input_identity_state = to_str (get_or m "input_identity_state" (text "resolved"));
    requested_scope = to_str (get_or m "requested_scope" (text "accepted_activation_boundary"));
    unsafe_operation_set = unsafe;
    generated_projection_presented_as_authority = presented;
  })

-- `OperatorRequest | ContractValidationResult`
pub data Resolved : Type 0 where
  request : OperatorRequest → Resolved
  refused : ContractValidationResult → Resolved

abbrev pub refused_with : List ContractIssue → Resolved
refused_with issues = refused (record { accepted = false; issues = issues })

abbrev resolve_built : Converted OperatorRequest → Resolved
resolve_built (value r) = request r
resolve_built (raised message) = refused_with (
    record {
      issue_kind = invalid_field;
      severity = IssueSeverity.fault;
      reason = message;
      field_name = none;
    }
    ∷ [])

abbrev resolve_missing : List ContractIssue → Mapping → Resolved
resolve_missing [] m = resolve_built (build_request m)
resolve_missing (i ∷ is) m = refused_with (i ∷ is)

unfoldable pub request_from_mapping : Mapping → Resolved
unfolding missing_fields build_request
request_from_mapping m = resolve_missing (missing_fields m required_request_fields) m
