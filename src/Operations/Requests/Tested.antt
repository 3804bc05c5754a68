-- ===== src/Operations/Requests/Tested.antt =====
-- The tests that an accepted request passes, each with the negation that the code has.
use lang_sop.Base.{
  both, false_of_not, not_of_false, ◌≡◌, refl, ◌∙◌, sym, ap, ◌↔◌, ◌≢◌, String, Bool, true, false,
  not, ◌&&◌, ◌||◌, ◌==◌, List, [], ◌∷◌, contains, is_empty, is_empty_text, all_iff, arith,
}
use lang_sop.Records.{lacks_text}
use lang_sop.Operations.Requests.Vocabulary.{
  OperationEffectClass, OperationTargetRisk, OperationFreshnessState,
}
use lang_sop.Operations.Requests.Fields.{
  operation_effect_class_is_unknown, operation_effect_class_is_blocked_live_effect,
  operation_target_risk_is_ambiguous, operation_freshness_state_is_fresh,
  in_forbidden_authority_tier_set, required_operation_request_identity_field_set,
  required_operation_request_safety_field_set,
}
use lang_sop.Operations.Requests.Records.{
  OperationRequestEnvelope, operation_request_envelope_texts,
}
use lang_sop.Operations.Requests.Classes.{
  classify_resource_target, effect_class, requires_resource_safety_review,
}
use lang_sop.Operations.Requests.Boundaries.{target_specific_issues, authority_promotion_issues}
use lang_sop.Operations.Requests.{validate_operation_request_envelope}
use lang_sop.Operations.Requests.Issues.{
  has_all, admission_tests, accepted-tests, is_empty-target_specific_issues,
}

-- A request that passes every test of the code.
pub record IsTested (e : OperationRequestEnvelope) : Type 0 where
  pub identity :
      (name : String)
      → contains name required_operation_request_identity_field_set ≡ true
      → lacks_text (operation_request_envelope_texts e) name ≡ false
  pub safety :
      (name : String)
      → contains name required_operation_request_safety_field_set ≡ true
      → lacks_text (operation_request_envelope_texts e) name ≡ false
  pub sourced : is_empty e.source_ref_set ≡ false
  pub reviewed : is_empty_text e.completion_review_ref ≡ false
  pub noticed : is_empty_text e.authority_notice_ref ≡ false
  pub notice_fresh :
      contains e.authority_notice_state ("missing" ∷ "missing_or_stale" ∷ "stale" ∷ []) ≡ false
  pub fresh : e.freshness_state ≡ OperationFreshnessState.fresh
  pub planning : in_forbidden_authority_tier_set e.authority_tier ≡ false
  pub dry_run : e.dry_run_required ≡ true
  pub effect : effect_class e ≡ OperationEffectClass.safe_dry_run
  pub target : classify_resource_target e.resource_target ≢ OperationTargetRisk.ambiguous
  pub abortable : is_empty_text e.rollback_or_abort_route ≡ false
  pub no_credential :
      ((e.resource_target == "credential_or_secret")
        || (e.intended_effect == "credential_access_or_mutation"))
      ≡ false
  pub no_network :
      ((e.resource_target == "network_service")
        || (e.intended_effect == "network_exposure_mutation"))
      ≡ false
  pub no_destruction :
      ((e.resource_target == "filesystem_destructive_target")
        || (e.intended_effect == "destructive_filesystem_action"))
      ≡ false
  pub no_promotion : is_empty (authority_promotion_issues e) ≡ true
  pub no_review : requires_resource_safety_review e ≡ false

safe_lem :
    (c : OperationEffectClass)
    → operation_effect_class_is_blocked_live_effect c ≡ false
    → operation_effect_class_is_unknown c ≡ false
    → c ≡ OperationEffectClass.safe_dry_run
safe_lem OperationEffectClass.safe_dry_run h k = refl
safe_lem OperationEffectClass.blocked_live_effect h k = cc
safe_lem OperationEffectClass.unknown h k = cc

fresh_lem :
    (f : OperationFreshnessState)
    → operation_freshness_state_is_fresh f ≡ true
    → f ≡ OperationFreshnessState.fresh
fresh_lem f h = ground arith

ambiguous_lem :
    (t : OperationTargetRisk)
    → (not (operation_target_risk_is_ambiguous t) ≡ true) ↔ (t ≢ OperationTargetRisk.ambiguous)
ambiguous_lem OperationTargetRisk.ambiguous = (λ h. cc, λ h. absurd (h refl))
ambiguous_lem OperationTargetRisk.low = (λ h k. cc, λ h. refl)
ambiguous_lem OperationTargetRisk.high = (λ h k. cc, λ h. refl)

names_lem :
    (names : List String) (e : OperationRequestEnvelope)
    → (has_all names e ≡ true) ↔ (
        (name : String)
        → contains name names ≡ true
        → lacks_text (operation_request_envelope_texts e) name ≡ false)
names_lem names e = (
  λ h name m. ground (
    arith,
    (all_iff (λ n. not (lacks_text (operation_request_envelope_texts e) n)) names).0 h name m,
  ),
  λ f.
      (all_iff (λ n. not (lacks_text (operation_request_envelope_texts e) n)) names).1
        (λ name m. ap not (f name m)),
)

IsTested-of_tests :
    (e : OperationRequestEnvelope)
    → (admission_tests e && not (operation_effect_class_is_unknown (effect_class e))) ≡ true
    → IsTested e
unfolding effect_class
IsTested-of_tests e h =
    let (t, known) = both h in
    let (identity, t) = both t in
    let (safety, t) = both t in
    let (sourced, t) = both t in
    let (reviewed, t) = both t in
    let (noticed, t) = both t in
    let (notice_fresh, t) = both t in
    let (fresh, t) = both t in
    let (planning, t) = both t in
    let (dry_run, t) = both t in
    let (effect, t) = both t in
    let (target, t) = both t in
    let (abortable, t) = both t in
    let (targets, t) = both t in
    let (no_promotion, no_review) = both t in
    let (credential, rest) = both (sym (is_empty-target_specific_issues e) ∙ targets) in
    let (network, destruction) = both rest in
    record {
      identity = (names_lem required_operation_request_identity_field_set e).0 identity;
      safety = (names_lem required_operation_request_safety_field_set e).0 safety;
      sourced = false_of_not sourced;
      reviewed = false_of_not reviewed;
      noticed = false_of_not noticed;
      notice_fresh = false_of_not notice_fresh;
      fresh = fresh_lem e.freshness_state fresh;
      planning = false_of_not planning;
      dry_run = dry_run;
      effect = safe_lem (effect_class e) (false_of_not effect) (false_of_not known);
      target = (ambiguous_lem _).0 target;
      abortable = false_of_not abortable;
      no_credential = false_of_not credential;
      no_network = false_of_not network;
      no_destruction = false_of_not destruction;
      no_promotion = no_promotion;
      no_review = false_of_not no_review;
    }

infixr 35 ◌and◌
◌and◌ : {a b : Bool} → a ≡ true → b ≡ true → (a && b) ≡ true
h and k = ground arith

IsTested-tests :
    (e : OperationRequestEnvelope)
    → IsTested e
    → (admission_tests e && not (operation_effect_class_is_unknown (effect_class e))) ≡ true
unfolding effect_class
IsTested-tests e a =
    let targets : is_empty (target_specific_issues e) ≡ true =
      is_empty-target_specific_issues e
      ∙ (not_of_false a.no_credential
          and (not_of_false a.no_network and not_of_false a.no_destruction)) in
    ((names_lem required_operation_request_identity_field_set e).1 a.identity
      and ((names_lem required_operation_request_safety_field_set e).1 a.safety
          and (not_of_false a.sourced
              and (not_of_false a.reviewed
                  and (not_of_false a.noticed
                      and (not_of_false a.notice_fresh
                          and (ap operation_freshness_state_is_fresh a.fresh
                              and (not_of_false a.planning
                                  and (a.dry_run
                                      and (ap
                                            (λ c.
                                              not (operation_effect_class_is_blocked_live_effect c))
                                            a.effect
                                          and ((ambiguous_lem
                                                  (classify_resource_target e.resource_target)).1
                                                a.target
                                              and (not_of_false a.abortable
                                                  and (targets
                                                      and (a.no_promotion
                                                          and not_of_false a.no_review))))))))))))))
    and ap (λ c. not (operation_effect_class_is_unknown c)) a.effect

-- A request is accepted exactly when it passes every test.
pub validate_operation_request-IsTested :
    (e : OperationRequestEnvelope)
    → ((validate_operation_request_envelope e).accepted ≡ true) ↔ IsTested e
validate_operation_request-IsTested e = (
  λ h. IsTested-of_tests e (sym (accepted-tests e) ∙ h),
  λ a. accepted-tests e ∙ IsTested-tests e a,
)
