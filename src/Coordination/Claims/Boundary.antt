-- ===== src/Coordination/Claims/Boundary.antt =====
-- What an accepted work boundary is, and that its status agrees with its evidence.
use mathlib.Core.Bool.{not-not}
use lang_sop.Base.{
  both, false_of_not, double_negation, ◌≡◌, refl, ◌∙◌, sym, ap, String, Bool, true, false, not,
  ◌&&◌, List, all, contains, is_empty, is_empty_text, is_empty-append, is_empty-only_if,
  is_empty-map, arith,
}
use lang_sop.Base.{◌↔◌, all_iff}
use lang_sop.Records.{lacks_text}
use lang_sop.Coordination.Claims.Vocabulary.{
  required_work_boundary_field_set, WorkBoundaryStatus, ClaimFreshnessState,
  claim_freshness_state_is_fresh, work_boundary_status_is_dependency_closed,
}
use lang_sop.Coordination.Claims.Records.{
  WorkBoundaryProjectionEnvelope, work_boundary_projection_envelope_texts, is_dependency_closed,
  stop_evidence_present,
}
use lang_sop.Coordination.Claims.{
  validate_work_boundary_projection_envelope, forbidden_permitted_action_issues,
}
use lang_sop.Coordination.Claims.Compatibility.{boundary_status_for_claim_evidence}
use lang_sop.Coordination.Claims.Forbidden.{is_forbidden, forbidden_iff}

-- The status that the evidence of a boundary gives.
abbrev pub status_of_evidence : WorkBoundaryProjectionEnvelope → WorkBoundaryStatus
status_of_evidence e =
    boundary_status_for_claim_evidence e.blocker_ref_set e.stale_trigger_ref_set
      e.contested_claim_ref_set e.ambiguous_identity_ref_set e.pending_review_ref_set
      e.fault_ref_set e.refusal_reason_set

closed_lem :
    (e : WorkBoundaryProjectionEnvelope)
    → work_boundary_status_is_dependency_closed (status_of_evidence e)
      ≡ not (stop_evidence_present e)
unfolding boundary_status_for_claim_evidence stop_evidence_present
closed_lem e = ground arith

abbrev has_all : List String → WorkBoundaryProjectionEnvelope → Bool
has_all names e =
    all (λ name. not (lacks_text (work_boundary_projection_envelope_texts e) name)) names

-- The tests for an issue, each negated, in the order of the code.
abbrev boundary_tests : WorkBoundaryProjectionEnvelope → Bool
boundary_tests e =
    has_all required_work_boundary_field_set e
    && (not (is_empty e.authority_basis_ref_set)
        && (not (is_empty_text e.authority_notice_ref)
            && (not (is_dependency_closed e && stop_evidence_present e)
                && (not (
                      is_dependency_closed e
                      && not (claim_freshness_state_is_fresh e.freshness_state))
                    && (not e.generated_projection_claimed_as_authority
                        && (not e.source_authority_mutation_requested
                            && is_empty
                                (forbidden_permitted_action_issues e.required_route_set)))))))

accepted-tests :
    (e : WorkBoundaryProjectionEnvelope)
    → (validate_work_boundary_projection_envelope e).accepted ≡ boundary_tests e
unfolding validate_work_boundary_projection_envelope all
accepted-tests e = simp (is_empty-append, is_empty-only_if, is_empty-map, not-not)

-- A boundary with its texts, a basis and a notice, which promotes nothing and asks for no forbidden
-- action; one that is closed is fresh and has no evidence against it.
pub record IsSound (e : WorkBoundaryProjectionEnvelope) : Type 0 where
  pub texts :
      (name : String)
      → contains name required_work_boundary_field_set ≡ true
      → lacks_text (work_boundary_projection_envelope_texts e) name ≡ false
  pub based : is_empty e.authority_basis_ref_set ≡ false
  pub noticed : is_empty_text e.authority_notice_ref ≡ false
  pub closed :
      is_dependency_closed e ≡ true
      → (status_of_evidence e ≡ WorkBoundaryStatus.dependency_closed)
        × (e.freshness_state ≡ ClaimFreshnessState.fresh)
  pub not_generated : e.generated_projection_claimed_as_authority ≡ false
  pub no_mutation : e.source_authority_mutation_requested ≡ false
  pub routes : (k : String) → contains k e.required_route_set ≡ true → is_forbidden k ≡ false

status_lem :
    (s : WorkBoundaryStatus)
    → work_boundary_status_is_dependency_closed s ≡ true
    → s ≡ WorkBoundaryStatus.dependency_closed
status_lem s h = ground arith

fresh_lem :
    (f : ClaimFreshnessState)
    → claim_freshness_state_is_fresh f ≡ true
    → f ≡ ClaimFreshnessState.fresh
fresh_lem f h = ground arith

names_lem :
    (names : List String) (e : WorkBoundaryProjectionEnvelope)
    → (has_all names e ≡ true) ↔ (
        (name : String)
        → contains name names ≡ true
        → lacks_text (work_boundary_projection_envelope_texts e) name ≡ false)
names_lem names e =
    let missing =
      all_iff (λ n. not (lacks_text (work_boundary_projection_envelope_texts e) n)) names in
    (λ h name m. ground (arith, missing.0 h name m), λ f. missing.1 (λ name m. ap not (f name m)))

allows_lem : (a b : Bool) → not (a && b) ≡ true → a ≡ true → not b ≡ true
allows_lem a b h k = ground arith

-- A closed boundary without evidence is fresh: the two tests of the code for it.
closed_tests_lem :
    (d s f : Bool)
    → (d ≡ true → (not s ≡ true) × (f ≡ true))
    → (not (d && s) ≡ true) × (not (d && not f) ≡ true)
closed_tests_lem true s f h = ((h refl).0, ground (arith, (h refl).1))
closed_tests_lem false s f h = (refl, refl)

IsSound-tests : (e : WorkBoundaryProjectionEnvelope) → boundary_tests e ≡ true → IsSound e
IsSound-tests e h =
    let (texts, t) = both h in
    let (based, t) = both t in
    let (noticed, t) = both t in
    let (evidence, t) = both t in
    let (fresh, t) = both t in
    let (generated, t) = both t in
    let (mutation, routes) = both t in
    record {
      texts = (names_lem required_work_boundary_field_set e).0 texts;
      based = false_of_not based;
      noticed = false_of_not noticed;
      closed = λ d. (
        status_lem (status_of_evidence e) (
            closed_lem e
            ∙ allows_lem (is_dependency_closed e) (stop_evidence_present e) evidence d),
        fresh_lem e.freshness_state (
            double_negation (
              allows_lem (is_dependency_closed e)
                (not (claim_freshness_state_is_fresh e.freshness_state)) fresh d)),
      );
      not_generated = false_of_not generated;
      no_mutation = false_of_not mutation;
      routes = (forbidden_iff e.required_route_set).0 routes;
    }

tests-IsSound : (e : WorkBoundaryProjectionEnvelope) → IsSound e → boundary_tests e ≡ true
tests-IsSound e s =
    let (evidence, fresh) =
      closed_tests_lem (is_dependency_closed e) (stop_evidence_present e)
        (claim_freshness_state_is_fresh e.freshness_state)
        (λ d. (
          sym (closed_lem e) ∙ ap work_boundary_status_is_dependency_closed ((s.closed d).0),
          ap claim_freshness_state_is_fresh ((s.closed d).1),
        )) in
    rw
      (
        (names_lem required_work_boundary_field_set e).1 s.texts,
        s.based,
        s.noticed,
        evidence,
        fresh,
        s.not_generated,
        s.no_mutation,
        (forbidden_iff e.required_route_set).1 s.routes,
      )
      refl

-- A work boundary is accepted exactly when it is sound: it has its texts, a basis and a notice, it
-- promotes nothing and asks for no forbidden action, and if it is dependency-closed then it is fresh
-- and its own evidence gives that status.
pub validate_work_boundary-IsSound :
    (e : WorkBoundaryProjectionEnvelope)
    → ((validate_work_boundary_projection_envelope e).accepted ≡ true) ↔ IsSound e
validate_work_boundary-IsSound e =
    (λ h. IsSound-tests e (sym (accepted-tests e) ∙ h), λ s. accepted-tests e ∙ tests-IsSound e s)
