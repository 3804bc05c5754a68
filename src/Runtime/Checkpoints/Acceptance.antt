-- ===== src/Runtime/Checkpoints/Acceptance.antt =====
-- When `validate_checkpoint` accepts, and what its other results then are.
use mathlib.Core.List.{Perm}
use lang_sop.Base.{
  ◌≡◌, refl, ◌↔◌, String, Bool, true, false, not, ◌&&◌, Option, List, [], ◌∷◌, ◌++◌, ◌==◌, arith,
  ap, ◌∙◌, is_empty,
}
use lang_sop.Text.Sets.{same_set}
use lang_sop.Text.Sets.Order.{sorted-perm}
use lang_sop.Digest.{Digest}
use lang_sop.Runtime.State.{GraphIssue}
use lang_sop.Runtime.Checkpoints.{
  CheckpointFreshnessResult, CheckpointResumeCondition, CheckpointEnvelope, Checked,
  check_presented, check_claims, check_basis, check_status, unchecked, validate_checkpoint,
  checkpoint_accepted, build_checkpoint_envelope, deterministic_checkpoint_id,
}

-- The four conditions of a checkpoint that may be used.
abbrev pub is_usable : CheckpointEnvelope → List String → Bool
is_usable c basis =
    not c.presented_as_authority
    && (not c.claims_readiness
        && (same_set c.freshness_basis_ref_set basis
            && (c.checkpoint_status == "generated_projection_only")))

is_empty-concat : (is : List GraphIssue) (i : GraphIssue) → is_empty (is ++ i ∷ []) ≡ false
is_empty-concat [] i = refl
is_empty-concat (k ∷ is) i = refl

presented_lem :
    (c : CheckpointEnvelope) (v : Checked)
    → is_empty (check_presented c v).issues ≡ (not c.presented_as_authority && is_empty v.issues)
unfolding check_presented
presented_lem c v = ground (arith, is_empty-concat v.issues)

claims_lem :
    (c : CheckpointEnvelope) (v : Checked)
    → is_empty (check_claims c v).issues ≡ (not c.claims_readiness && is_empty v.issues)
unfolding check_claims
claims_lem c v = ground (arith, is_empty-concat v.issues)

basis_lem :
    (c : CheckpointEnvelope) (basis : List String) (v : Checked)
    → is_empty (check_basis c basis v).issues
      ≡ (same_set c.freshness_basis_ref_set basis && is_empty v.issues)
unfolding check_basis
basis_lem c basis v = ground (arith, is_empty-concat v.issues)

status_lem :
    (c : CheckpointEnvelope) (v : Checked)
    → is_empty (check_status c v).issues
      ≡ ((c.checkpoint_status == "generated_projection_only") && is_empty v.issues)
unfolding check_status
status_lem c v = ground (arith, is_empty-concat v.issues)

-- A checkpoint is accepted exactly when it claims no authority and no readiness, stands on the same
-- set of freshness references as the source, and has the status of a projection.
pub checkpoint_accepted-validate :
    (c : CheckpointEnvelope) (basis : List String)
    → checkpoint_accepted (validate_checkpoint c basis) ≡ is_usable c basis
unfolding validate_checkpoint
checkpoint_accepted-validate c basis =
    let a = presented_lem c unchecked in
    let b = claims_lem c (check_presented c unchecked) in
    let d = basis_lem c basis (check_claims c (check_presented c unchecked)) in
    let e = status_lem c (check_basis c basis (check_claims c (check_presented c unchecked))) in
    ground arith

abbrev is_current : CheckpointFreshnessResult → Bool
is_current CheckpointFreshnessResult.current = true
is_current _ = false

abbrev is_not_required : CheckpointResumeCondition → Bool
is_not_required CheckpointResumeCondition.not_required = true
is_not_required _ = false

-- The freshness and the resume condition say whether there are issues.
record Agrees (v : Checked) : Type 0 where
  freshness : is_current v.freshness_result ≡ is_empty v.issues
  resume : is_not_required v.resume ≡ is_empty v.issues

presented-Agrees : (c : CheckpointEnvelope) (v : Checked) → Agrees v → Agrees (check_presented c v)
unfolding check_presented
presented-Agrees c v h = record {
  freshness = ground (arith, is_empty-concat v.issues, h.freshness);
  resume = ground (arith, is_empty-concat v.issues, h.resume);
}

claims-Agrees : (c : CheckpointEnvelope) (v : Checked) → Agrees v → Agrees (check_claims c v)
unfolding check_claims
claims-Agrees c v h = record {
  freshness = ground (arith, is_empty-concat v.issues, h.freshness);
  resume = ground (arith, is_empty-concat v.issues, h.resume);
}

basis-Agrees :
    (c : CheckpointEnvelope) (basis : List String) (v : Checked)
    → Agrees v
    → Agrees (check_basis c basis v)
unfolding check_basis
basis-Agrees c basis v h = record {
  freshness = ground (arith, is_empty-concat v.issues, h.freshness);
  resume = ground (arith, is_empty-concat v.issues, h.resume);
}

status-Agrees : (c : CheckpointEnvelope) (v : Checked) → Agrees v → Agrees (check_status c v)
unfolding check_status
status-Agrees c v h = record {
  freshness = ground (arith, is_empty-concat v.issues, h.freshness);
  resume = ground (arith, is_empty-concat v.issues, h.resume);
}

fresh_iff :
    (r : CheckpointFreshnessResult) (b : Bool)
    → is_current r ≡ b
    → (r ≡ CheckpointFreshnessResult.current) ↔ (b ≡ true)
fresh_iff r b h = ground arith

resume_iff :
    (r : CheckpointResumeCondition) (b : Bool)
    → is_not_required r ≡ b
    → (r ≡ CheckpointResumeCondition.not_required) ↔ (b ≡ true)
resume_iff r b h = ground arith

and_true : (b : Bool) → (b && true) ≡ b
and_true b = ground arith

-- The freshness is current exactly when the checkpoint is accepted, and no condition is set on a
-- resumption exactly then.
pub validate_checkpoint-agrees :
    (c : CheckpointEnvelope) (basis : List String)
    → ((validate_checkpoint c basis).checkpoint_freshness_result ≡ CheckpointFreshnessResult.current
        ↔ checkpoint_accepted (validate_checkpoint c basis) ≡ true)
      × ((validate_checkpoint c basis).resume_condition ≡ CheckpointResumeCondition.not_required
          ↔ checkpoint_accepted (validate_checkpoint c basis) ≡ true)
unfolding validate_checkpoint
validate_checkpoint-agrees c basis =
    let agrees = status-Agrees c _ (
      basis-Agrees c basis _ (
        claims-Agrees c _
          (presented-Agrees c unchecked (record { freshness = refl; resume = refl })))) in
    (fresh_iff _ _ agrees.freshness, resume_iff _ _ agrees.resume)

module _ (digest : Digest) (fixture_id packet_ref phase node : String)
    (pending : Option String) where
  abbrev built : List String → Bool → Bool → CheckpointEnvelope
  built basis presented claims =
      build_checkpoint_envelope digest fixture_id packet_ref basis phase node presented claims
        pending

  -- An envelope as it is built is accepted against a basis exactly when it was built on the same
  -- set and with neither claim.
  pub validate-build :
      (basis accepted_basis : List String) (presented claims : Bool)
      → checkpoint_accepted (validate_checkpoint (built basis presented claims) accepted_basis)
        ≡ (not presented && (not claims && same_set basis accepted_basis))
  unfolding build_checkpoint_envelope
  validate-build basis accepted_basis presented claims =
      checkpoint_accepted-validate (built basis presented claims) accepted_basis
      ∙ ap (λ b. not presented && (not claims && b)) (and_true _)

  -- The identifier of an envelope does not depend on the order of its freshness references.
  pub checkpoint_id-perm :
      {basis other : List String} (presented claims : Bool)
      → Perm basis other
      → (built basis presented claims).checkpoint_id ≡ (built other presented claims).checkpoint_id
  unfolding build_checkpoint_envelope deterministic_checkpoint_id
  checkpoint_id-perm presented claims p = rw (sorted-perm p)
