-- ===== src/Operators/Runner/TraceOf.antt =====
-- What the trace of a run says, and the issue that explains a refusal.
use mathlib.Core.List.{Perm}
use lang_sop.Base.{
  ◌≡◌, refl, ◌≢◌, String, true, List, [], ◌∷◌, arith, Bool-cases, inl, inr, any, find?-any,
}
use lang_sop.Digest.{Digest}
use lang_sop.Text.Sets.Order.{sorted-perm}
use lang_sop.Operators.Contracts.{
  OutcomeKind, success, blocked_output, fault_output, sop_first_interrupt, OperatorContract,
  OperatorRequest, ContractIssue, ContractValidationResult, has_fault, validate_operator_request,
}
use lang_sop.Operators.Requests.{Resolved, request, refused}
use lang_sop.Operators.Requests.Shape.{IsRefusal}
use lang_sop.Operators.Results.{Called, returned, raised, OperatorRunResult, RequestInput}
use lang_sop.Operators.Traces.{deterministic_trace_id}
use lang_sop.Operators.Classify.{
  outcome_from_validation, primary_issue_for_outcome, has_severity_for,
}
use lang_sop.Operators.Runner.{
  RunOptions, RequestContext, request_context_from_mapping, raised_issue, context_of_request,
  refuse, succeed, finish_call, run_request, run_unresolved, run_resolved, run_contract_operator,
  resolve_request, blocked_or_fault_result, trace_from_parts, or_context_sources,
}
use lang_sop.Operators.Runner.Runs.{run_lem, decided-ne_success, resolve_request-IsRefusal}
use lang_sop.Operators.Runner.Outcomes.{run_request_of_refused, run_request_of_accepted}

-- The identifier of a trace does not depend on the order of the sources.
pub deterministic_trace_id-perm :
    (digest : Digest) (contract_id version request_ref schema : String) {xs ys : List String}
    → Perm xs ys
    → deterministic_trace_id digest contract_id version request_ref xs schema
      ≡ deterministic_trace_id digest contract_id version request_ref ys schema
unfolding deterministic_trace_id
deterministic_trace_id-perm digest contract_id version request_ref schema p = rw (sorted-perm p)

abbrev HasTraceOutcome : OperatorRunResult → Type 0
HasTraceOutcome r = r.operator_trace.outcome_kind ≡ r.outcome_kind

module _ (digest : Digest) (c : OperatorContract) (o : RunOptions) where
  refuse-HasTraceOutcome :
      (x : RequestContext) (k : OutcomeKind) (is : List ContractIssue)
      → k ≢ success
      → HasTraceOutcome (refuse digest c o x k is)
  unfolding refuse blocked_or_fault_result trace_from_parts
  refuse-HasTraceOutcome x success is h = absurd (h refl)
  refuse-HasTraceOutcome x blocked_output is h = refl
  refuse-HasTraceOutcome x fault_output is h = refl
  refuse-HasTraceOutcome x sop_first_interrupt is h = refl

  finish_call-HasTraceOutcome :
      (r : OperatorRequest) (k : Called) → HasTraceOutcome (finish_call digest c o r k)
  unfolding finish_call succeed trace_from_parts
  finish_call-HasTraceOutcome r (returned p) = refl
  finish_call-HasTraceOutcome r (raised n m) =
      refuse-HasTraceOutcome (context_of_request digest c o r) fault_output (raised_issue n m ∷ [])
        (λ e. cc)

  run_request-HasTraceOutcome : (r : OperatorRequest) → HasTraceOutcome (run_request digest c o r)
  run_request-HasTraceOutcome r =
      let v = validate_operator_request r c o.accepted_scope in
      elim (Bool-cases v.accepted) [
        | inl e ↦ rw (run_request_of_accepted digest c o r e) (finish_call-HasTraceOutcome r _)
        | inr e ↦ rw (run_request_of_refused digest c o r e) (
            refuse-HasTraceOutcome (context_of_request digest c o r) (outcome_from_validation v)
              v.issues (decided-ne_success digest c o r e))
      ]

  fault_of_has_fault :
      (v : ContractValidationResult) → has_fault v ≡ true → outcome_from_validation v ≡ fault_output
  unfolding has_fault outcome_from_validation
  fault_of_has_fault v h = rw h

  run_resolved-HasTraceOutcome :
      (q : RequestInput) (s : Resolved)
      → IsRefusal s
      → HasTraceOutcome (run_resolved digest c o q s)
  unfolding run_unresolved
  run_resolved-HasTraceOutcome q (request r) i = run_request-HasTraceOutcome r
  run_resolved-HasTraceOutcome q (refused v) i =
      let x = request_context_from_mapping q in
      refuse-HasTraceOutcome
        (record x { source_ref_set = or_context_sources o.source_ref_set x.source_ref_set })
        (outcome_from_validation v) v.issues (λ e. cc (e, fault_of_has_fault v i.1))

  -- The trace of a run carries the run's outcome, on every branch.
  pub run-trace_outcome :
      (q : RequestInput)
      → (run_contract_operator digest c o q).operator_trace.outcome_kind
        ≡ (run_contract_operator digest c o q).outcome_kind
  run-trace_outcome q =
      rw (run_lem digest c o q) (
        run_resolved-HasTraceOutcome q (resolve_request q) (resolve_request-IsRefusal digest c o q))

primary_of_any :
    (is : List ContractIssue) (k : OutcomeKind)
    → any (has_severity_for k) is ≡ true
    → has_severity_for k (primary_issue_for_outcome is k) ≡ true
unfolding primary_issue_for_outcome
primary_of_any is k h =
    let (i, e, s) = find?-any (has_severity_for k) is h in rw (e, primary_issue_for_outcome) s

severity_found :
    (v : ContractValidationResult)
    → outcome_from_validation v ≢ success
    → any (has_severity_for (outcome_from_validation v)) v.issues ≡ true
unfolding outcome_from_validation
severity_found v h = ground arith

-- The issue by which a validation that does not succeed is explained has the severity of its outcome.
pub primary_issue_severity :
    (v : ContractValidationResult)
    → outcome_from_validation v ≢ success
    → has_severity_for
        (outcome_from_validation v)
        (primary_issue_for_outcome v.issues (outcome_from_validation v))
      ≡ true
primary_issue_severity v h = primary_of_any v.issues _ (severity_found v h)
