-- ===== src/Operations/Refusals/Recorded.antt =====
-- When the refusal record of a request is itself a valid record.
use mathlib.Core.Bool.{not-not}
use lang_sop.Base.{
  ◌≡◌, refl, ◌∙◌, ◌==◌, Bool, false, not, ◌&&◌, ◌||◌, none, all, is_empty_text, is_empty-append,
  is_empty-only_if, is_empty-map, is_empty_text-append, arith, Bool-cases, inl, inr,
}
use lang_sop.Records.{lacks_text}
use lang_sop.Operations.Requests.Records.{
  OperationRequestEnvelope, OperationRequestValidationResult,
}
use lang_sop.Operations.Refusals.Fields.{
  operation_refusal_reason_is_high_risk_target_without_ir7_s03_review_or_another,
  operation_refusal_reason_is_missing_required_identity_field_or_another,
  operation_refusal_reason_is_stale_authority_notice, refusal_non_authority_notice,
  required_refusal_record_field_set,
}
use lang_sop.Operations.Refusals.Records.{OperationRefusalRecord, operation_refusal_record_texts}
use lang_sop.Operations.Refusals.Vocabulary.{OperationRefusalReason}
use lang_sop.Operations.Refusals.{safe_next_route_for_reason, validate_operation_refusal_record}
use lang_sop.Operations.Refusals.Projection.{refusal_record_from_request_validation}

is_empty_text-route :
    (r : OperationRefusalReason) → is_empty_text (safe_next_route_for_reason r) ≡ false
unfolding safe_next_route_for_reason
is_empty_text-route r =
    elim (Bool-cases
      (operation_refusal_reason_is_high_risk_target_without_ir7_s03_review_or_another r)) [
        | inl a ↦ rw a refl
        | inr a ↦
            rw a
              (elim (Bool-cases
                (operation_refusal_reason_is_missing_required_identity_field_or_another r)) [
                  | inl b ↦ rw b refl
                  | inr b ↦
                      rw b
                        (elim (Bool-cases (operation_refusal_reason_is_stale_authority_notice r)) [
                          | inl c ↦ rw c refl
                          | inr c ↦ rw c refl
                        ])
                ])
      ]

abbrev record_tests : OperationRefusalRecord → Bool
record_tests given =
    all (λ name. not (lacks_text (operation_refusal_record_texts given) name))
      required_refusal_record_field_set
    && ((given.non_authority_notice == refusal_non_authority_notice)
        && not (given.live_effect_performed || given.command_generated))

accepted-tests :
    (given : OperationRefusalRecord)
    → (validate_operation_refusal_record given).accepted ≡ record_tests given
unfolding validate_operation_refusal_record all
accepted-tests given = simp (is_empty-append, is_empty-only_if, is_empty-map, not-not)

-- The texts that a refusal record takes from its request.
abbrev pub names_the_request : OperationRequestEnvelope → Bool
names_the_request e =
    not (is_empty_text e.operation_request_id)
    && (not (is_empty_text e.intended_effect)
        && (not (is_empty_text e.resource_target)
            && (not (is_empty_text e.requested_by)
                && (not (is_empty_text e.carrier_surface)
                    && not (is_empty_text e.authority_notice_ref)))))

-- The refusal record of a request is accepted exactly when the request has an identifier, an effect, a
-- target, an actor, a carrier and an authority notice, whatever its validation found.
pub refusal_record-accepted :
    (e : OperationRequestEnvelope) (v : OperationRequestValidationResult)
    → (validate_operation_refusal_record (refusal_record_from_request_validation e v none)).accepted
      ≡ names_the_request e
unfolding refusal_record_from_request_validation lacks_text all
refusal_record-accepted e v =
    let given = refusal_record_from_request_validation e v none in
    accepted-tests given
    ∙ rw
        (
          is_empty_text-append e.operation_request_id ":refusal" refl,
          is_empty_text-route given.refusal_reason,
        )
        (ground arith)
