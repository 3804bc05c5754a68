-- ===== src/Operations/DryRun/OfRequest.antt =====
-- What the validation of a request makes of a dry run, of src/langsop/operations/dry_run.py.
use lang_sop.Operations.DryRun.Vocabulary.{DryRunResultStatus}
use lang_sop.Operations.Requests.Records.{
  OperationRequestEnvelope, OperationRequestValidationResult, has_fault, has_refusal,
  requires_review,
}
use lang_sop.Base.{Bool, Option, [], contains, if◌then◌else◌, test_some, true, ◌||◌, ◌∷◌}

unfoldable pub result_status_for_request_validation :
    OperationRequestValidationResult → DryRunResultStatus
unfolding has_fault has_refusal requires_review
result_status_for_request_validation validation =
    if has_fault validation
    then DryRunResultStatus.faulted
    else if has_refusal validation
    then DryRunResultStatus.refused
    else if requires_review validation
    then DryRunResultStatus.review_required
    else DryRunResultStatus.blocked

unfoldable pub requires_human_approval :
    OperationRequestEnvelope → Option OperationRequestValidationResult → Bool
unfolding contains requires_review
requires_human_approval envelope validation =
    if test_some (λ validation. requires_review validation) validation
    then true
    else ((contains envelope.risk_classification ("critical" ∷ "high" ∷ []))
        || (contains envelope.blast_radius ("uncertain" ∷ "wide" ∷ "critical" ∷ "unknown" ∷ [])))
