-- ===== src/Operators/Runner/Runs.antt =====
-- When a run succeeds, when it calls the operator function, and what its trace says.
use lang_sop.Base.{◌≡◌, refl, ◌∙◌, sym, ◌≢◌, ◌↔◌, true, false, Option, List, Bool-cases, inl, inr}
use lang_sop.Digest.{Digest}
use lang_sop.Operators.Values.{Object}
use lang_sop.Operators.Contracts.{
  OutcomeKind, success, blocked_output, fault_output, sop_first_interrupt, OperatorContract,
  OperatorRequest, ContractIssue, ContractValidationResult, has_fault, validate_operator_request,
}
use lang_sop.Operators.Contracts.Admission.{IsAdmissible, validate-accepted_iff}
use lang_sop.Operators.Requests.{Resolved, request, refused}
use lang_sop.Operators.Requests.Shape.{IsRefusal, request_from_mapping-IsRefusal}
use lang_sop.Operators.Results.{
  Payload, Called, returned, raised, OperatorFunction, RequestInput, built, mapping,
}
use lang_sop.Operators.Classify.{outcome_from_validation}
use lang_sop.Operators.Runner.{
  RunOptions, RequestContext, request_context_from_mapping, call, context_of_request, refuse,
  succeed, finish_call, run_request, run_unresolved, run_resolved, run_contract_operator,
  resolve_request, blocked_or_fault_result, trace_from_parts,
}
use lang_sop.Operators.Runner.Outcomes.{
  decided_outcome, outcome-validate, decided_success_iff, run_request_of_refused,
  run_request_of_accepted,
}

-- What a call of the operator function makes of a decided outcome.
abbrev pub after_call : OutcomeKind → Called → OutcomeKind
after_call success (returned p) = success
after_call success (raised n m) = fault_output
after_call k called = k

outcome-refuse :
    (digest : Digest) (c : OperatorContract) (o : RunOptions) (x : RequestContext) (k : OutcomeKind)
    (is : List ContractIssue)
    → k ≢ success
    → (refuse digest c o x k is).outcome_kind ≡ k
unfolding refuse blocked_or_fault_result
outcome-refuse digest c o x success is h = absurd (h refl)
outcome-refuse digest c o x blocked_output is h = refl
outcome-refuse digest c o x fault_output is h = refl
outcome-refuse digest c o x sop_first_interrupt is h = refl

outcome-finish_call :
    (digest : Digest) (c : OperatorContract) (o : RunOptions) (r : OperatorRequest) (k : Called)
    → (finish_call digest c o r k).outcome_kind ≡ after_call success k
unfolding finish_call succeed refuse blocked_or_fault_result
outcome-finish_call digest c o r (returned p) = refl
outcome-finish_call digest c o r (raised n m) = refl

after_call_of_ne : (k : OutcomeKind) (called : Called) → k ≢ success → after_call k called ≡ k
after_call_of_ne success called h = absurd (h refl)
after_call_of_ne blocked_output called h = refl
after_call_of_ne fault_output called h = refl
after_call_of_ne sop_first_interrupt called h = refl

module _ (digest : Digest) (c : OperatorContract) (o : RunOptions) where
  abbrev decided : OperatorRequest → OutcomeKind
  decided r = decided_outcome r c o.accepted_scope

  pub decided-ne_success :
      (r : OperatorRequest)
      → (validate_operator_request r c o.accepted_scope).accepted ≡ false
      → outcome_from_validation (validate_operator_request r c o.accepted_scope) ≢ success
  decided-ne_success r e h = cc (
    e,
    (decided_success_iff r c o.accepted_scope).0 (sym (outcome-validate r c o.accepted_scope) ∙ h),
  )

  -- The outcome of a run is decided by the request's own conditions, in the order fault, interrupt,
  -- blocked; where none holds the operator function is called, and a raised exception is a fault.
  pub run_request-outcome :
      (r : OperatorRequest)
      → (run_request digest c o r).outcome_kind
        ≡ after_call
            (decided_outcome r c o.accepted_scope)
            (call o.operator_function o.input_records)
  run_request-outcome r =
      let v = validate_operator_request r c o.accepted_scope in
      let k = call o.operator_function o.input_records in
      elim (Bool-cases v.accepted) [
        | inl e ↦
            rw
              (
                run_request_of_accepted digest c o r e,
                (decided_success_iff r c o.accepted_scope).1 e,
              )
              (outcome-finish_call digest c o r k)
        | inr e ↦
            rw (run_request_of_refused digest c o r e, ← outcome-validate r c o.accepted_scope)
              (outcome-refuse digest c o _ (outcome_from_validation v) v.issues
                  (decided-ne_success r e)
                ∙ sym (after_call_of_ne (outcome_from_validation v) k (decided-ne_success r e)))
      ]

  run_unresolved-outcome :
      (x : RequestContext) (v : ContractValidationResult)
      → has_fault v ≡ true
      → (run_unresolved digest c o x v).outcome_kind ≡ fault_output
  unfolding run_unresolved has_fault refuse blocked_or_fault_result
  run_unresolved-outcome x v h = rw h

  run_resolved-outcome :
      (q : RequestInput) (s : Resolved)
      → IsRefusal s
      → (run_resolved digest c o q s).outcome_kind ≡ success
      → (r : OperatorRequest) × (s ≡ request r)
        × ((run_request digest c o r).outcome_kind ≡ success)
  run_resolved-outcome q (request r) i h = (r, refl, h)
  run_resolved-outcome q (refused v) i h =
      cc (h, run_unresolved-outcome (request_context_from_mapping q) v i.1)

  after_call_success :
      (k : OutcomeKind) (called : Called)
      → after_call k called ≡ success
      → (k ≡ success) × ((p : Payload) × (called ≡ returned p))
  after_call_success success (returned p) h = (refl, (p, refl))
  after_call_success success (raised n m) h = cc
  after_call_success blocked_output called h = cc
  after_call_success fault_output called h = cc
  after_call_success sop_first_interrupt called h = cc

  pub resolve_request-IsRefusal : (q : RequestInput) → IsRefusal (resolve_request q)
  unfolding resolve_request
  resolve_request-IsRefusal (built r) = tt
  resolve_request-IsRefusal (mapping m) = request_from_mapping-IsRefusal m

  pub run_lem :
      (q : RequestInput)
      → run_contract_operator digest c o q ≡ run_resolved digest c o q (resolve_request q)
  unfolding run_contract_operator
  run_lem q = refl

  -- What a run needs to succeed.
  abbrev pub Succeeds : RequestInput → Type 0
  Succeeds q =
      (r : OperatorRequest) × (resolve_request q ≡ request r)
      × IsAdmissible r c o.accepted_scope
      × ((p : Payload) × (call o.operator_function o.input_records ≡ returned p))

  Succeeds-of_success :
      (q : RequestInput) → (run_contract_operator digest c o q).outcome_kind ≡ success → Succeeds q
  Succeeds-of_success q h =
      let (r, e, k) =
        run_resolved-outcome q (resolve_request q) (resolve_request-IsRefusal q)
          (rw run_lem at h) in
      let (d, p) = after_call_success _ _ (sym (run_request-outcome r) ∙ k) in
      (
        r,
        e,
        (validate-accepted_iff r c o.accepted_scope).0
            ((decided_success_iff r c o.accepted_scope).0 d),
        p,
      )

  success_of_Succeeds :
      (q : RequestInput) → Succeeds q → (run_contract_operator digest c o q).outcome_kind ≡ success
  success_of_Succeeds q (r, e, a, (p, k)) =
      rw (run_lem, e)
        (run_request-outcome r
          ∙ rw (
            (decided_success_iff r c o.accepted_scope).1
                ((validate-accepted_iff r c o.accepted_scope).1 a),
            k,
          ))

  -- A run succeeds exactly on a request, or a mapping that reads as one, which is admissible, and
  -- whose operator function returned.
  pub run_success_iff :
      (q : RequestInput)
      → ((run_contract_operator digest c o q).outcome_kind ≡ success) ↔ Succeeds q
  run_success_iff q = (Succeeds-of_success q, success_of_Succeeds q)

refuse_of_options :
    (digest : Digest) (c : OperatorContract) (o : RunOptions) (r : OperatorRequest)
    (f : Option OperatorFunction) (records : List Object) (k : OutcomeKind)
    (is : List ContractIssue)
    → let o' = record o { operator_function = f; input_records = records } in
      refuse digest c o' (context_of_request digest c o' r) k is
      ≡ refuse digest c o (context_of_request digest c o r) k is
unfolding refuse context_of_request trace_from_parts
refuse_of_options digest c o r f records k is = refl

-- A request that validation refuses gives the same result whatever the operator function and its
-- records are: the function is not called.
pub run_refused_without_call :
    (digest : Digest) (c : OperatorContract) (o : RunOptions) (r : OperatorRequest)
    (f : Option OperatorFunction) (records : List Object)
    → (validate_operator_request r c o.accepted_scope).accepted ≡ false
    → run_contract_operator digest c
        (record o { operator_function = f; input_records = records })
        (built r)
      ≡ run_contract_operator digest c o (built r)
unfolding run_contract_operator
run_refused_without_call digest c o r f records e =
    run_request_of_refused digest c (record o { operator_function = f; input_records = records }) r
      e
    ∙ refuse_of_options digest c o r f records _
        (validate_operator_request r c o.accepted_scope).issues
    ∙ sym (run_request_of_refused digest c o r e)
