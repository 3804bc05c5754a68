-- ===== src/Operators/Requests/RoundTrip.antt =====
-- A request that is written out as a mapping is read back.
use lang_sop.Base.{◌≡◌, ◌≢◌, refl, String, Option, none, some, [], ◌∷◌}
use lang_sop.Operators.Values.{
  Object, none_value, boolean, text, sequence, Mapping, value, ◌>>=◌, optional_str,
}
use lang_sop.Operators.Contracts.{
  OutcomeKind, success, blocked_output, fault_output, sop_first_interrupt, outcome_kind_value,
  OperatorRequest,
}
use lang_sop.Operators.Requests.{
  request, build_request, outcome_kind_of, request_from_mapping, resolve_built,
}

outcome_kind_of-value : (k : OutcomeKind) → outcome_kind_of (outcome_kind_value k) ≡ value k
unfolding outcome_kind_of outcome_kind_value
outcome_kind_of-value success = refl
outcome_kind_of-value blocked_output = refl
outcome_kind_of-value fault_output = refl
outcome_kind_of-value sop_first_interrupt = refl

abbrev optional_object : Option String → Object
optional_object none = none_value
optional_object (some s) = text s

-- Every field of a request, as `request_from_mapping` reads it.
pub mapping_of : OperatorRequest → Mapping
unfolding outcome_kind_value
mapping_of r =
    ("request_id", text r.request_id)
    ∷ ("request_uuid", text r.request_uuid)
    ∷ ("slice_id", text r.slice_id)
    ∷ ("requested_operator_id", text r.requested_operator_id)
    ∷ ("requested_operator_version", text r.requested_operator_version)
    ∷ ("requested_outcome_kind", text (outcome_kind_value r.requested_outcome_kind))
    ∷ ("input_ref_set", sequence "" r.input_ref_set)
    ∷ ("authority_basis_ref_set", sequence "" r.authority_basis_ref_set)
    ∷ ("expected_output_kind_set", sequence "" r.expected_output_kind_set)
    ∷ ("generated_output_policy_ref", text r.generated_output_policy_ref)
    ∷ ("safety_limit_ref", text r.safety_limit_ref)
    ∷ ("refusal_allowed", boolean r.refusal_allowed)
    ∷ ("completion_review_ref", optional_object r.completion_review_ref)
    ∷ ("model_route", optional_object r.model_route)
    ∷ ("authority_basis_state", text r.authority_basis_state)
    ∷ ("input_identity_state", text r.input_identity_state)
    ∷ ("requested_scope", text r.requested_scope)
    ∷ ("unsafe_operation_set", sequence "" r.unsafe_operation_set)
    ∷ (
      "generated_projection_presented_as_authority",
      boolean r.generated_projection_presented_as_authority,
    )
    ∷ []

-- An optional text that is there is not empty.
abbrev pub IsProper : Option String → Type 0
IsProper o = o ≢ some ""

optional_str-object : (o : Option String) → IsProper o → optional_str (some (optional_object o)) ≡ o
unfolding optional_str
optional_str-object none h = refl
optional_str-object (some String.[]) h = absurd (h refl)
optional_str-object (some (String.◌∷◌ c s)) h = refl

-- What the conversions make of the fields that do not convert to themselves.
build_request-mapping_of :
    (r : OperatorRequest)
    → build_request (mapping_of r) ≡ (
        outcome_kind_of (outcome_kind_value r.requested_outcome_kind) >>= λ kind. value (record r {
          requested_outcome_kind = kind;
          completion_review_ref = optional_str (some (optional_object r.completion_review_ref));
          model_route = optional_str (some (optional_object r.model_route));
        }))
unfolding build_request mapping_of
build_request-mapping_of r = refl

resolve-mapping_of :
    (r : OperatorRequest)
    → request_from_mapping (mapping_of r) ≡ resolve_built (build_request (mapping_of r))
unfolding request_from_mapping mapping_of
resolve-mapping_of r = refl

-- A request whose optional texts are not empty is read back from its mapping, field by field.
pub request_from_mapping-mapping_of :
    (r : OperatorRequest)
    → IsProper r.completion_review_ref
    → IsProper r.model_route
    → request_from_mapping (mapping_of r) ≡ request r
request_from_mapping-mapping_of r p q = rw (
  resolve-mapping_of,
  build_request-mapping_of,
  outcome_kind_of-value r.requested_outcome_kind,
  optional_str-object r.completion_review_ref p,
  optional_str-object r.model_route q,
)
