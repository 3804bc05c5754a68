-- ===== src/Tests/OperatorRuns.antt =====
-- The theorems of the operators at a request that is admissible and one that is not.
use mathlib.Core.List.{Perm}
use mathlib.Core.List.Perm as Perms
use lang_sop.Base.{◌≡◌, refl, ◌↔◌, ◌≢◌, true, false, some, String, [], ◌∷◌, any}
use lang_sop.Operators.Values.{Mapping, text}
use lang_sop.Operators.Contracts.{success, fault_output, is_fault, validate_operator_request}
use lang_sop.Operators.Contracts.Admission.{IsAdmissible, validate-accepted_iff}
use lang_sop.Operators.Requests.{request, request_from_mapping}
use lang_sop.Operators.Requests.Readable.{IsReadable, is_request, request_from_mapping-IsReadable}
use lang_sop.Operators.Requests.RoundTrip.{mapping_of, request_from_mapping-mapping_of}
use lang_sop.Operators.Results.{built, mapping}
use lang_sop.Operators.Classify.{outcome_from_validation}
use lang_sop.Operators.Runner.{call, run_request, run_contract_operator}
use lang_sop.Operators.Runner.Outcomes.{
  decided_outcome, outcome-validate, IsCoherent, run-IsCoherent,
}
use lang_sop.Operators.Runner.Runs.{
  after_call, run_request-outcome, Succeeds, run_success_iff, run_refused_without_call,
}
use lang_sop.Operators.Runner.TraceOf.{run-trace_outcome}
use lang_sop.Tests.Samples.{
  one_digest, planner, good_request, bad_request, plan_function, failing_function, with_plan,
}

abbrev scope : String
scope = "accepted_activation_boundary"

-- A mapping with two of the required fields.
abbrev short_mapping : Mapping
short_mapping = ("request_id", text "r1") ∷ ("slice_id", text "s1") ∷ []

validate-accepted_iff_example :
    ((validate_operator_request good_request planner scope).accepted ≡ true)
    ↔ IsAdmissible good_request planner scope
validate-accepted_iff_example = validate-accepted_iff good_request planner scope

request_from_mapping-IsReadable_example :
    (is_request (request_from_mapping (mapping_of good_request)) ≡ true)
    ↔ IsReadable (mapping_of good_request)
request_from_mapping-IsReadable_example = request_from_mapping-IsReadable (mapping_of good_request)

request_from_mapping-mapping_of_example :
    request_from_mapping (mapping_of good_request) ≡ request good_request
request_from_mapping-mapping_of_example =
    request_from_mapping-mapping_of good_request (λ h. cc) (λ h. cc)

outcome-validate_example :
    outcome_from_validation (validate_operator_request bad_request planner scope)
    ≡ decided_outcome bad_request planner scope
outcome-validate_example = outcome-validate bad_request planner scope

run-IsCoherent_example :
    IsCoherent (run_contract_operator one_digest planner with_plan (mapping short_mapping))
run-IsCoherent_example = run-IsCoherent one_digest planner with_plan (mapping short_mapping)

run_request-outcome_example :
    (run_request one_digest planner with_plan good_request).outcome_kind
    ≡ after_call (decided_outcome good_request planner scope) (call (some plan_function) [])
run_request-outcome_example = run_request-outcome one_digest planner with_plan good_request

run_success_iff_example :
    ((run_contract_operator one_digest planner with_plan (built good_request)).outcome_kind
      ≡ success)
    ↔ Succeeds one_digest planner with_plan (built good_request)
run_success_iff_example = run_success_iff one_digest planner with_plan (built good_request)

bad_request_refused : (validate_operator_request bad_request planner scope).accepted ≡ false
unfolding validate_operator_request
bad_request_refused = refl

run_refused_without_call_example :
    run_contract_operator one_digest planner
      (record with_plan { operator_function = some failing_function; input_records = [] })
      (built bad_request)
    ≡ run_contract_operator one_digest planner with_plan (built bad_request)
run_refused_without_call_example =
    run_refused_without_call one_digest planner with_plan bad_request (some failing_function) []
      bad_request_refused

run-trace_outcome_example :
    (run_contract_operator one_digest planner with_plan
      (built bad_request)).operator_trace.outcome_kind
    ≡ (run_contract_operator one_digest planner with_plan (built bad_request)).outcome_kind
run-trace_outcome_example = run-trace_outcome one_digest planner with_plan (built bad_request)

bad_request_fault :
    outcome_from_validation (validate_operator_request bad_request planner scope) ≡ fault_output
unfolding validate_operator_request outcome_from_validation any is_fault
bad_request_fault = refl

bad_request_outcome :
    outcome_from_validation (validate_operator_request bad_request planner scope) ≢ success
bad_request_outcome h = cc (h, bad_request_fault)

swapped : Perm {A = String} ("a" ∷ "b" ∷ []) ("b" ∷ "a" ∷ [])
swapped = Perms.swap "b" "a" []

abbrev short_trace : Mapping
short_trace = ("trace_id", text "t1") ∷ ("non_authority_warning", text "none") ∷ []
