-- ===== src/Operations/Requests/Admission.antt =====
-- Which requests `validate_operation_request_envelope` accepts, in terms of their fields.
use lang_sop.Base.{
  ◌≡◌, refl, ◌∙◌, sym, ◌↔◌, String, true, false, ◌==◌, [], ◌∷◌, contains, is_empty, is_empty_text,
  both, false_of_not,
}
use lang_sop.Records.{lacks_text}
use lang_sop.Text.Sets.Laws.{avoids_iff}
use lang_sop.Operations.Requests.Vocabulary.{OperationFreshnessState}
use lang_sop.Operations.Requests.Fields.{
  high_risk_target_set, in_forbidden_authority_tier_set,
  required_operation_request_identity_field_set, required_operation_request_safety_field_set,
  safe_dry_run_effect_set, target_kind_set,
}
use lang_sop.Operations.Requests.Records.{
  OperationRequestEnvelope, operation_request_envelope_texts,
}
use lang_sop.Operations.Requests.Classes.{effect_class, target_risk}
use lang_sop.Operations.Requests.Tested.{IsTested, validate_operation_request-IsTested}
use lang_sop.Operations.Requests.{validate_operation_request_envelope}
use lang_sop.Operations.Requests.Bounded.{
  IsBounded, differs_lem, effect_iff, risk_high_lem, review_lem, promotion_lem, low_iff, neither,
  or_false, and_false, second_false, target_iff,
}

-- What a request must be to be accepted.
pub record IsAdmitted (e : OperationRequestEnvelope) : Type 0 where
  pub identity :
      (name : String)
      → contains name required_operation_request_identity_field_set ≡ true
      → lacks_text (operation_request_envelope_texts e) name ≡ false
  pub safety :
      (name : String)
      → contains name required_operation_request_safety_field_set ≡ true
      → lacks_text (operation_request_envelope_texts e) name ≡ false
  pub sourced : is_empty e.source_ref_set ≡ false
  pub reviewed : is_empty_text e.completion_review_ref ≡ false
  pub noticed : is_empty_text e.authority_notice_ref ≡ false
  pub notice_fresh :
      contains e.authority_notice_state ("missing" ∷ "missing_or_stale" ∷ "stale" ∷ []) ≡ false
  pub fresh : e.freshness_state ≡ OperationFreshnessState.fresh
  pub planning : in_forbidden_authority_tier_set e.authority_tier ≡ false
  pub dry_run : e.dry_run_required ≡ true
  pub effect : contains e.intended_effect safe_dry_run_effect_set ≡ true
  pub target : contains e.resource_target target_kind_set ≡ true
  pub known : (e.resource_target == "unknown_or_ambiguous") ≡ false
  pub no_credential : (e.resource_target == "credential_or_secret") ≡ false
  pub no_network : (e.resource_target == "network_service") ≡ false
  pub no_destruction : (e.resource_target == "filesystem_destructive_target") ≡ false
  pub abortable : is_empty_text e.rollback_or_abort_route ≡ false
  pub no_promotion : e.requested_authority_promotion ≡ false
  pub citations :
      (k : String)
      → contains k e.cited_authority_set ≡ true
      → contains k ("generated_projection" ∷ "fixture_success" ∷ []) ≡ false
  pub bounded : contains e.resource_target high_risk_target_set ≡ true → IsBounded e

IsAdmitted-tested : (e : OperationRequestEnvelope) → IsTested e → IsAdmitted e
unfolding effect_class target_risk
IsAdmitted-tested e t =
    let effect = (effect_iff e.intended_effect).0 t.effect in
    let (known, kind) = (target_iff e.resource_target).0 t.target in
    let (requested, cited) = both (sym (promotion_lem e effect) ∙ t.no_promotion) in
    record {
      identity = t.identity;
      safety = t.safety;
      sourced = t.sourced;
      reviewed = t.reviewed;
      noticed = t.noticed;
      notice_fresh = t.notice_fresh;
      fresh = t.fresh;
      planning = t.planning;
      dry_run = t.dry_run;
      effect = effect;
      target = kind;
      known = known;
      no_credential =
          (neither _ (e.intended_effect == "credential_access_or_mutation") t.no_credential).0;
      no_network = (neither _ (e.intended_effect == "network_exposure_mutation") t.no_network).0;
      no_destruction =
          (neither _ (e.intended_effect == "destructive_filesystem_action") t.no_destruction).0;
      abortable = t.abortable;
      no_promotion = false_of_not requested;
      citations =
          (avoids_iff e.cited_authority_set ("generated_projection" ∷ "fixture_success" ∷ [])).0
            cited;
      bounded = λ high. (low_iff e).0 (
          second_false _ _ (risk_high_lem e.resource_target known kind ∙ high)
            (sym (review_lem e t.effect) ∙ t.no_review));
    }

IsTested-admitted : (e : OperationRequestEnvelope) → IsAdmitted e → IsTested e
unfolding effect_class target_risk contains
IsTested-admitted e a =
    let safe = (effect_iff e.intended_effect).1 a.effect in
    let differs = λ (x : String) (n : contains x safe_dry_run_effect_set ≡ false).
      differs_lem e.intended_effect x safe_dry_run_effect_set a.effect n in
    record {
      identity = a.identity;
      safety = a.safety;
      sourced = a.sourced;
      reviewed = a.reviewed;
      noticed = a.noticed;
      notice_fresh = a.notice_fresh;
      fresh = a.fresh;
      planning = a.planning;
      dry_run = a.dry_run;
      effect = safe;
      target = (target_iff e.resource_target).1 (a.known, a.target);
      abortable = a.abortable;
      no_credential = or_false _ _ a.no_credential (differs "credential_access_or_mutation" refl);
      no_network = or_false _ _ a.no_network (differs "network_exposure_mutation" refl);
      no_destruction = or_false _ _ a.no_destruction (differs "destructive_filesystem_action" refl);
      no_promotion =
          promotion_lem e a.effect
          ∙ rw
              (
                a.no_promotion,
                (avoids_iff e.cited_authority_set
                      ("generated_projection" ∷ "fixture_success" ∷ [])).1
                    a.citations,
              )
              refl;
      no_review =
          review_lem e safe
          ∙ and_false _ _ (λ high.
            (low_iff e).1
              (a.bounded (sym (risk_high_lem e.resource_target a.known a.target) ∙ high)));
    }

-- A request is accepted exactly when it has every required field, sources, a completion review, a
-- fresh authority notice and a fresh state, a planning tier, the dry run required, a safe dry-run
-- effect, an abort route, and a known target that is no credential, network or destructive one; it
-- promotes no authority and cites no generated projection or fixture; and where its target is of high
-- risk, it predicts no side effect and names neither a wide blast radius nor a high risk.
pub validate_operation_request-IsAdmitted :
    (e : OperationRequestEnvelope)
    → ((validate_operation_request_envelope e).accepted ≡ true) ↔ IsAdmitted e
validate_operation_request-IsAdmitted e =
    let tested = validate_operation_request-IsTested e in
    (λ h. IsAdmitted-tested e (tested.0 h), λ a. tested.1 (IsTested-admitted e a))
