-- ===== src/Operations/DryRun/OfValidated.antt =====
-- The dry run of a request that was validated: its check agrees with the validation.
use lang_sop.Base.{
  ◌≡◌, refl, ◌∙◌, sym, ap, String, false, some, List, [], contains, is_empty_text,
  is_empty_text-append, arith, Bool-cases, inl, inr,
}
use lang_sop.Records.{lacks_text}
use lang_sop.Operations.Requests.Records.{
  OperationRequestEnvelope, OperationRequestValidationResult,
}
use lang_sop.Operations.Requests.{validate_operation_request_envelope}
use lang_sop.Operations.Requests.Admission.{IsAdmitted, validate_operation_request-IsAdmitted}
use lang_sop.Operations.DryRun.Vocabulary.{DryRunResultStatus}
use lang_sop.Operations.DryRun.Fields.{dry_run_result_status_is_accepted}
use lang_sop.Operations.DryRun.Records.{DryRunResultIssue, DryRunResultRecord}
use lang_sop.Operations.DryRun.OfRequest.{result_status_for_request_validation}
use lang_sop.Operations.DryRun.{
  validation_status_for_issues, validate_dry_run_result_record,
  dry_run_result_from_operation_request, status_of_request,
}

-- The texts of a request that its dry run repeats.
record IsStated (e : OperationRequestEnvelope) : Type 0 where
  request : is_empty_text e.operation_request_id ≡ false
  notice : is_empty_text e.authority_notice_ref ≡ false
  target : is_empty_text e.resource_target ≡ false
  risk : is_empty_text e.risk_classification ≡ false
  route : is_empty_text e.rollback_or_abort_route ≡ false
  stale : is_empty_text e.stale_after ≡ false

IsStated-of_admitted : (e : OperationRequestEnvelope) → IsAdmitted e → IsStated e
unfolding contains lacks_text
IsStated-of_admitted e a = record {
  request = a.identity "operation_request_id" refl;
  notice = a.noticed;
  target = a.safety "resource_target" refl;
  risk = a.safety "risk_classification" refl;
  route = a.abortable;
  stale = a.safety "stale_after" refl;
}

accepted_lem :
    (r : DryRunResultRecord)
    → (validate_dry_run_result_record r).accepted
      ≡ dry_run_result_status_is_accepted
          (validation_status_for_issues (validate_dry_run_result_record r).issues r.review_status)
unfolding validate_dry_run_result_record
accepted_lem r = refl

-- Issues never lift a status to accepted.
validation_status-accepted :
    (issues : List DryRunResultIssue) (s : DryRunResultStatus)
    → dry_run_result_status_is_accepted s ≡ false
    → dry_run_result_status_is_accepted (validation_status_for_issues issues s) ≡ false
unfolding validation_status_for_issues
validation_status-accepted issues s h = ground arith

result_status-accepted :
    (v : OperationRequestValidationResult)
    → dry_run_result_status_is_accepted (result_status_for_request_validation v) ≡ false
unfolding result_status_for_request_validation
result_status-accepted v = ground arith

validation_status-nil : (s : DryRunResultStatus) → validation_status_for_issues [] s ≡ s
unfolding validation_status_for_issues
validation_status-nil s = refl

module _ (e : OperationRequestEnvelope) (summary estimate output : String) where
  abbrev result_of : OperationRequestValidationResult → DryRunResultRecord
  result_of v = dry_run_result_from_operation_request e (some v) summary estimate output

  no_issue :
      (v : OperationRequestValidationResult)
      → is_empty_text summary ≡ false
      → is_empty_text estimate ≡ false
      → IsStated e
      → (validate_dry_run_result_record (result_of v)).issues ≡ []
  unfolding validate_dry_run_result_record dry_run_result_from_operation_request lacks_text
  no_issue v hs he s =
      rw
        (
          is_empty_text-append e.operation_request_id ":dry-run" refl,
          is_empty_text-append e.operation_request_uuid ":dry-run" refl,
          s.request,
          s.notice,
          s.target,
          s.risk,
          s.route,
          s.stale,
          hs,
          he,
        )
        refl

  review_status_lem :
      (v : OperationRequestValidationResult)
      → (result_of v).review_status ≡ status_of_request (some v)
  unfolding dry_run_result_from_operation_request
  review_status_lem v = refl

  -- The dry run of a request with its own validation, given a summary and an estimate, is accepted
  -- exactly when the request is.
  pub dry_run-accepted :
      is_empty_text summary ≡ false
      → is_empty_text estimate ≡ false
      → (validate_dry_run_result_record
          (result_of (validate_operation_request_envelope e))).accepted
        ≡ (validate_operation_request_envelope e).accepted
  dry_run-accepted hs he =
      let v = validate_operation_request_envelope e in
      let status = λ (is : List DryRunResultIssue) (t : DryRunResultStatus).
        dry_run_result_status_is_accepted (validation_status_for_issues is t) in
      let issues = (validate_dry_run_result_record (result_of v)).issues in
      accepted_lem (result_of v)
      ∙ (ap (λ t. status issues t) (review_status_lem v) ∙ elim (Bool-cases v.accepted) [
        | inl h ↦
            ap (λ is. status is (status_of_request (some v)))
              (no_issue v hs he
                (IsStated-of_admitted e ((validate_operation_request-IsAdmitted e).0 h)))
            ∙ (ap dry_run_result_status_is_accepted
                  (validation_status-nil (status_of_request (some v)))
                ∙ (rw h refl))
        | inr h ↦
            validation_status-accepted issues (status_of_request (some v))
              (rw h (result_status-accepted _))
            ∙ sym h
      ])
