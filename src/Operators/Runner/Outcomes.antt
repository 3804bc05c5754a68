-- ===== src/Operators/Runner/Outcomes.antt =====
-- The outcome of an operator run, and the record that goes with it.
use lang_sop.Base.{
  ◌≡◌, refl, ◌↔◌, String, true, false, List, arith, is_some, if◌then◌else◌, ◌==◌, Bool-cases, inl,
  inr,
}
use lang_sop.Digest.{Digest}
use lang_sop.Operators.Contracts.{
  OutcomeKind, success, blocked_output, fault_output, sop_first_interrupt, OperatorContract,
  OperatorRequest, ContractIssue, ContractValidationResult, has_fault, has_interrupt, has_blocker,
  validate_operator_request,
}
use lang_sop.Operators.Contracts.Admission.{
  accepted-tests, is_faulty, is_unsupported, has_fault-validate, has_interrupt-validate,
  has_blocker-validate,
}
use lang_sop.Operators.Requests.{Resolved, request, refused}
use lang_sop.Operators.Results.{Payload, Called, returned, raised, OperatorRunResult, RequestInput}
use lang_sop.Operators.Classify.{outcome_from_validation}
use lang_sop.Operators.Runner.{
  RunOptions, RequestContext, request_context_from_mapping, or_context_sources, call,
  context_of_request, refuse, succeed, finish_call, run_request, run_unresolved, run_resolved,
  run_contract_operator, resolve_request, blocked_or_fault_result,
}

-- The outcome of a request by its own conditions: a fault first, then an ambiguous identity, then
-- what only blocks.
abbrev pub decided_outcome : OperatorRequest → OperatorContract → String → OutcomeKind
decided_outcome r c scope =
    if is_faulty r c
    then fault_output
    else if r.input_identity_state == "ambiguous"
    then sop_first_interrupt
    else if is_unsupported r c scope
    then blocked_output
    else success

outcome-by_tests :
    (v : ContractValidationResult)
    → outcome_from_validation v ≡ (
        if has_fault v
        then fault_output
        else if has_interrupt v
        then sop_first_interrupt
        else if has_blocker v
        then blocked_output
        else success)
unfolding outcome_from_validation
outcome-by_tests v = refl

-- Validation classifies a request by its conditions, whatever the issues that it lists.
pub outcome-validate :
    (r : OperatorRequest) (c : OperatorContract) (scope : String)
    → outcome_from_validation (validate_operator_request r c scope) ≡ decided_outcome r c scope
outcome-validate r c scope =
    rw (outcome-by_tests (validate_operator_request r c scope))
      (simp (has_fault-validate, has_interrupt-validate, has_blocker-validate))

-- Only an accepted request is decided to succeed.
pub decided_success_iff :
    (r : OperatorRequest) (c : OperatorContract) (scope : String)
    → (decided_outcome r c scope ≡ success)
      ↔ ((validate_operator_request r c scope).accepted ≡ true)
decided_success_iff r c scope =
    (λ h. ground (arith, accepted-tests r c scope), λ h. ground (arith, accepted-tests r c scope))

-- The four optional parts of a result: only that of its outcome is there.
pub record IsCoherent (r : OperatorRunResult) : Type 0 where
  pub accepted_iff : (r.accepted ≡ true) ↔ (r.outcome_kind ≡ success)
  pub result_iff : (is_some r.operator_result ≡ true) ↔ (r.outcome_kind ≡ success)
  pub refusal_iff : (is_some r.runner_refusal ≡ true) ↔ (r.outcome_kind ≡ blocked_output)
  pub fault_iff : (is_some r.fault_record ≡ true) ↔ (r.outcome_kind ≡ fault_output)
  pub interrupt_iff :
      (is_some r.sop_first_interrupt ≡ true) ↔ (r.outcome_kind ≡ sop_first_interrupt)

blocked_or_fault_result-IsCoherent :
    (ref : String) (o : OutcomeKind) (t : _) (is : List ContractIssue) (xs ys : List String)
    → IsCoherent (blocked_or_fault_result ref o t is xs ys)
unfolding blocked_or_fault_result
blocked_or_fault_result-IsCoherent ref o t is xs ys = ground arith

module _ (digest : Digest) (c : OperatorContract) (o : RunOptions) where
  refuse-IsCoherent :
      (x : RequestContext) (k : OutcomeKind) (is : List ContractIssue)
      → IsCoherent (refuse digest c o x k is)
  unfolding refuse
  refuse-IsCoherent x k is =
      blocked_or_fault_result-IsCoherent x.request_ref k _ is x.input_ref_set
        x.authority_basis_ref_set

  succeed-IsCoherent : (r : OperatorRequest) (p : Payload) → IsCoherent (succeed digest c o r p)
  unfolding succeed
  succeed-IsCoherent r p = ground arith

  finish_call-IsCoherent :
      (r : OperatorRequest) (k : Called) → IsCoherent (finish_call digest c o r k)
  unfolding finish_call
  finish_call-IsCoherent r (returned p) = succeed-IsCoherent r p
  finish_call-IsCoherent r (raised n m) = refuse-IsCoherent _ fault_output _

  -- A request that is not accepted is refused with what validation says of it.
  pub run_request_of_refused :
      (r : OperatorRequest)
      → let v = validate_operator_request r c o.accepted_scope in
        v.accepted ≡ false
        → run_request digest c o r
          ≡ refuse digest c o (context_of_request digest c o r) (outcome_from_validation v) v.issues
  unfolding run_request
  run_request_of_refused r e = rw e

  pub run_request_of_accepted :
      (r : OperatorRequest)
      → (validate_operator_request r c o.accepted_scope).accepted ≡ true
      → run_request digest c o r
        ≡ finish_call digest c o r (call o.operator_function o.input_records)
  unfolding run_request
  run_request_of_accepted r e = rw e

  run_request-IsCoherent : (r : OperatorRequest) → IsCoherent (run_request digest c o r)
  run_request-IsCoherent r =
      let v = validate_operator_request r c o.accepted_scope in
      elim (Bool-cases v.accepted) [
        | inl e ↦ rw (run_request_of_accepted r e) (finish_call-IsCoherent r _)
        | inr e ↦ rw (run_request_of_refused r e) (
            refuse-IsCoherent (context_of_request digest c o r) (outcome_from_validation v)
              v.issues)
      ]

  run_resolved-IsCoherent :
      (q : RequestInput) (s : Resolved) → IsCoherent (run_resolved digest c o q s)
  unfolding run_unresolved
  run_resolved-IsCoherent q (request r) = run_request-IsCoherent r
  run_resolved-IsCoherent q (refused v) =
      let x = request_context_from_mapping q in
      refuse-IsCoherent
        (record x { source_ref_set = or_context_sources o.source_ref_set x.source_ref_set })
        (outcome_from_validation v) v.issues

  -- A run is accepted exactly when its outcome is success, and of a result, a refusal, a fault and an
  -- interrupt it carries exactly the one that its outcome calls for, for every request and mapping.
  pub run-IsCoherent : (q : RequestInput) → IsCoherent (run_contract_operator digest c o q)
  unfolding run_contract_operator
  run-IsCoherent q = run_resolved-IsCoherent q (resolve_request q)
