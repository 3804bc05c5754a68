-- ===== src/Operations/Requests/Issues.antt =====
-- The issues of a request, by the tests of the code.
use mathlib.Core.Bool.{not-not}
use lang_sop.Base.{
  ◌≡◌, ◌∙◌, ap, String, Bool, not, ◌&&◌, ◌||◌, ◌==◌, List, [], ◌∷◌, all, contains, is_empty,
  is_empty_text, is_empty-append, is_empty-only_if, is_empty-map,
}
use lang_sop.Records.{lacks_text}
use lang_sop.Operations.Requests.Fields.{
  operation_effect_class_is_unknown, operation_effect_class_is_blocked_live_effect,
  operation_target_risk_is_ambiguous, operation_freshness_state_is_fresh,
  in_forbidden_authority_tier_set, required_operation_request_identity_field_set,
  required_operation_request_safety_field_set,
}
use lang_sop.Operations.Requests.Records.{
  OperationRequestEnvelope, operation_request_envelope_texts,
}
use lang_sop.Operations.Requests.Classes.{
  classify_intended_effect, classify_resource_target, effect_class, requires_resource_safety_review,
}
use lang_sop.Operations.Requests.Boundaries.{target_specific_issues, authority_promotion_issues}
use lang_sop.Operations.Requests.Status.{operation_request_status-accepted}
use lang_sop.Operations.Requests.{validate_operation_request_envelope}

abbrev pub has_all : List String → OperationRequestEnvelope → Bool
has_all names e = all (λ name. not (lacks_text (operation_request_envelope_texts e) name)) names

-- The tests for an issue, each negated, in the order of the code.
abbrev pub admission_tests : OperationRequestEnvelope → Bool
admission_tests e =
    has_all required_operation_request_identity_field_set e
    && (has_all required_operation_request_safety_field_set e
        && (not (is_empty e.source_ref_set)
            && (not (is_empty_text e.completion_review_ref)
                && (not (is_empty_text e.authority_notice_ref)
                    && (not (
                          contains e.authority_notice_state
                            ("missing" ∷ "missing_or_stale" ∷ "stale" ∷ []))
                        && (operation_freshness_state_is_fresh e.freshness_state
                            && (not (in_forbidden_authority_tier_set e.authority_tier)
                                && (e.dry_run_required
                                    && (not (
                                          operation_effect_class_is_blocked_live_effect
                                            (classify_intended_effect e.intended_effect))
                                        && (not (
                                              operation_target_risk_is_ambiguous
                                                (classify_resource_target e.resource_target))
                                            && (not (is_empty_text e.rollback_or_abort_route)
                                                && (is_empty (target_specific_issues e)
                                                    && (is_empty (authority_promotion_issues e)
                                                        && not (
                                                            requires_resource_safety_review
                                                            e))))))))))))))

is_empty-issues :
    (e : OperationRequestEnvelope)
    → is_empty (validate_operation_request_envelope e).issues ≡ admission_tests e
unfolding validate_operation_request_envelope all
is_empty-issues e = simp (is_empty-append, is_empty-only_if, is_empty-map, not-not)

accepted-issues :
    (e : OperationRequestEnvelope)
    → (validate_operation_request_envelope e).accepted ≡ (
        is_empty (validate_operation_request_envelope e).issues
        && not (operation_effect_class_is_unknown (effect_class e)))
unfolding validate_operation_request_envelope
accepted-issues e = operation_request_status-accepted _ (effect_class e)

pub accepted-tests :
    (e : OperationRequestEnvelope)
    → (validate_operation_request_envelope e).accepted
      ≡ (admission_tests e && not (operation_effect_class_is_unknown (effect_class e)))
accepted-tests e =
    accepted-issues e
    ∙ ap (λ b. b && not (operation_effect_class_is_unknown (effect_class e))) (is_empty-issues e)

pub is_empty-target_specific_issues :
    (e : OperationRequestEnvelope)
    → is_empty (target_specific_issues e) ≡ (
        not (
          (e.resource_target == "credential_or_secret")
          || (e.intended_effect == "credential_access_or_mutation"))
        && (not (
              (e.resource_target == "network_service")
              || (e.intended_effect == "network_exposure_mutation"))
            && not (
                (e.resource_target == "filesystem_destructive_target")
                || (e.intended_effect == "destructive_filesystem_action"))))
unfolding target_specific_issues
is_empty-target_specific_issues e = simp (is_empty-append, is_empty-only_if)
