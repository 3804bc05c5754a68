-- ===== src/Operations/Safety/Scoped.antt =====
-- Which human approvals `validate_human_approval_for_request` lets through.
use mathlib.Core.Bool.{not-not}
use lang_sop.Base.{
  ◌≡◌, refl, ◌∙◌, sym, ◌↔◌, String, Bool, true, false, not, ◌&&◌, ◌||◌, ◌==◌, eq_iff, all, contains,
  is_empty, is_empty-append, is_empty-only_if, is_empty-map, all_iff, both, false_of_not,
  not_of_false, arith,
}
use lang_sop.Records.{lacks_field}
use lang_sop.Operations.Requests.Records.{OperationRequestEnvelope}
use lang_sop.Operations.Safety.Vocabulary.{HumanApprovalState}
use lang_sop.Operations.Safety.Fields.{
  human_approval_state_is_broad_invalid, human_approval_state_is_mismatched,
  human_approval_state_is_revoked, human_approval_state_is_stale, required_human_approval_field_set,
}
use lang_sop.Operations.Safety.Records.{HumanApprovalEnvelope, human_approval_envelope_fields}
use lang_sop.Operations.Safety.Approval.{validate_human_approval_for_request}

-- A state for which no issue is raised.
pub data IsUnchallenged : HumanApprovalState → Type 0 where
  absent : IsUnchallenged HumanApprovalState.absent
  requested : IsUnchallenged HumanApprovalState.requested
  fresh_scoped : IsUnchallenged HumanApprovalState.fresh_scoped

-- An approval of this operation, effect and target and of nothing more, with all its evidence.
pub record IsScoped (approval : HumanApprovalEnvelope) (request : OperationRequestEnvelope)
    : Type 0 where
  pub evidence :
      (name : String)
      → contains name required_human_approval_field_set ≡ true
      → lacks_field (human_approval_envelope_fields approval) name ≡ false
  pub narrow : approval.broad_approval_requested ≡ false
  pub unchallenged : IsUnchallenged approval.approval_state
  pub operation : approval.approved_operation_request_ref ≡ request.operation_request_id
  pub effect : approval.approved_intended_effect ≡ request.intended_effect
  pub target : approval.approved_resource_target ≡ request.resource_target
  pub no_live_control : approval.live_control_authority_claimed ≡ false

abbrev has_evidence : HumanApprovalEnvelope → Bool
has_evidence a =
    all (λ name. not (lacks_field (human_approval_envelope_fields a) name))
      required_human_approval_field_set

abbrev is_challenged : HumanApprovalState → Bool
is_challenged s =
    human_approval_state_is_broad_invalid s
    || (human_approval_state_is_stale s
        || (human_approval_state_is_revoked s || human_approval_state_is_mismatched s))

-- The tests for an issue, each negated.
abbrev scope_tests : HumanApprovalEnvelope → OperationRequestEnvelope → Bool
scope_tests a r =
    has_evidence a
    && (not (a.broad_approval_requested || human_approval_state_is_broad_invalid a.approval_state)
        && (not (human_approval_state_is_stale a.approval_state)
            && (not (human_approval_state_is_revoked a.approval_state)
                && (not (human_approval_state_is_mismatched a.approval_state)
                    && ((a.approved_operation_request_ref == r.operation_request_id)
                        && ((a.approved_intended_effect == r.intended_effect)
                            && ((a.approved_resource_target == r.resource_target)
                                && not a.live_control_authority_claimed)))))))

is_empty-tests :
    (a : HumanApprovalEnvelope) (r : OperationRequestEnvelope)
    → is_empty (validate_human_approval_for_request a r) ≡ scope_tests a r
unfolding validate_human_approval_for_request all
is_empty-tests a r = simp (is_empty-append, is_empty-only_if, is_empty-map, not-not)

unchallenged_lem : (s : HumanApprovalState) → is_challenged s ≡ false → IsUnchallenged s
unchallenged_lem HumanApprovalState.absent h = absent
unchallenged_lem HumanApprovalState.requested h = requested
unchallenged_lem HumanApprovalState.fresh_scoped h = fresh_scoped
unchallenged_lem HumanApprovalState.stale h = cc
unchallenged_lem HumanApprovalState.revoked h = cc
unchallenged_lem HumanApprovalState.mismatched h = cc
unchallenged_lem HumanApprovalState.broad_invalid h = cc

not_challenged_lem : {s : HumanApprovalState} → IsUnchallenged s → is_challenged s ≡ false
not_challenged_lem absent = refl
not_challenged_lem requested = refl
not_challenged_lem fresh_scoped = refl

challenge_lem :
    (b s r m : Bool)
    → not b ≡ true
    → not s ≡ true
    → not r ≡ true
    → not m ≡ true
    → (b || (s || (r || m))) ≡ false
challenge_lem b s r m h i j k = ground arith

state_tests_lem :
    (a b s r m : Bool)
    → a ≡ false
    → (b || (s || (r || m))) ≡ false
    → (not (a || b) ≡ true) × (not s ≡ true) × (not r ≡ true) × (not m ≡ true)
state_tests_lem a b s r m h k = ground arith

or_lem : (a b : Bool) → not (a || b) ≡ true → (a ≡ false) × (not b ≡ true)
or_lem a b h = ground arith

-- An approval gives no issue for a request exactly when it has all its evidence, names this operation,
-- effect and target, is not broad, claims no live control, and its state is absent, requested or fresh
-- and scoped.
pub validate_human_approval-IsScoped :
    (a : HumanApprovalEnvelope) (r : OperationRequestEnvelope)
    → (is_empty (validate_human_approval_for_request a r) ≡ true) ↔ IsScoped a r
validate_human_approval-IsScoped a r =
    let names =
      all_iff (λ n. not (lacks_field (human_approval_envelope_fields a) n))
        required_human_approval_field_set in
    let state = a.approval_state in
    (
      λ h.
          let (evidence, t) = both (sym (is_empty-tests a r) ∙ h) in
          let (wide, t) = both t in
          let (stale, t) = both t in
          let (revoked, t) = both t in
          let (mismatched, t) = both t in
          let (operation, t) = both t in
          let (effect, t) = both t in
          let (target, control) = both t in
          let (narrow, broad) =
            or_lem a.broad_approval_requested
              (human_approval_state_is_broad_invalid a.approval_state) wide in
          record {
            evidence = λ name m. false_of_not (names.0 evidence name m);
            narrow = narrow;
            unchallenged = unchallenged_lem a.approval_state (
                challenge_lem (human_approval_state_is_broad_invalid a.approval_state)
                  (human_approval_state_is_stale a.approval_state)
                  (human_approval_state_is_revoked a.approval_state)
                  (human_approval_state_is_mismatched a.approval_state) broad stale revoked
                  mismatched);
            operation =
                (eq_iff a.approved_operation_request_ref r.operation_request_id).0 operation;
            effect = (eq_iff a.approved_intended_effect r.intended_effect).0 effect;
            target = (eq_iff a.approved_resource_target r.resource_target).0 target;
            no_live_control = false_of_not control;
          },
      λ s.
          let (wide, stale, revoked, mismatched) =
            state_tests_lem a.broad_approval_requested
              (human_approval_state_is_broad_invalid a.approval_state)
              (human_approval_state_is_stale a.approval_state)
              (human_approval_state_is_revoked a.approval_state)
              (human_approval_state_is_mismatched a.approval_state) s.narrow
              (not_challenged_lem s.unchallenged) in
          is_empty-tests a r
          ∙ rw
              (
                names.1 (λ name m. not_of_false (s.evidence name m)),
                wide,
                stale,
                revoked,
                mismatched,
                (eq_iff a.approved_operation_request_ref r.operation_request_id).1 s.operation,
                (eq_iff a.approved_intended_effect r.intended_effect).1 s.effect,
                (eq_iff a.approved_resource_target r.resource_target).1 s.target,
                s.no_live_control,
              )
              refl,
    )
