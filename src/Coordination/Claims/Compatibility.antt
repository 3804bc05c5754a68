-- ===== src/Coordination/Claims/Compatibility.antt =====
-- The compatibility of two claims, and the status of a boundary, of src/langsop/coordination/claims.py.
pub mod Symmetry
pub mod Disjoint
use lang_sop.Coordination.Claims.Records.{
  ClaimCompatibilityResult, ClaimIdentityEnvelope, claim_compatibility_result,
}
use lang_sop.Coordination.Claims.Vocabulary.{ClaimCompatibilityRelation, WorkBoundaryStatus}
use lang_sop.Base.{List, String, [], false, if◌then◌else◌, is_empty, not, true, ◌==◌, ◌||◌, ◌∷◌}
use lang_sop.Text.Sets.{distinct, intersection, same_set}

unfoldable pub classify_claim_compatibility :
    ClaimIdentityEnvelope
    → ClaimIdentityEnvelope
    → List String
    → List String
    → List String
    → List String
    → ClaimCompatibilityResult
unfolding distinct intersection same_set
classify_claim_compatibility claim_a claim_b claim_a_write_scope_set claim_b_write_scope_set
      claim_a_read_scope_set claim_b_read_scope_set =
    if claim_a.claim_id == claim_b.claim_id
    then claim_compatibility_result ClaimCompatibilityRelation.same_claim true "same claim id"
        (claim_a.claim_id ∷ claim_b.claim_id ∷ [])
    else let write_a = distinct (
        if not (is_empty claim_a_write_scope_set)
        then claim_a_write_scope_set
        else claim_a.scope_subject_ref_set) in
      let write_b = distinct (
        if not (is_empty claim_b_write_scope_set)
        then claim_b_write_scope_set
        else claim_b.scope_subject_ref_set) in
      let read_a = distinct claim_a_read_scope_set in
      let read_b = distinct claim_b_read_scope_set in
      if is_empty write_a || is_empty write_b
      then claim_compatibility_result ClaimCompatibilityRelation.ambiguous_scope_relation false
          "missing write scope prevents compatibility proof"
          (claim_a.claim_id ∷ claim_b.claim_id ∷ [])
      else if same_set write_a write_b
      then claim_compatibility_result ClaimCompatibilityRelation.identical_write_scope false
          "identical write scope requires conflict review"
          (claim_a.claim_id ∷ claim_b.claim_id ∷ [])
      else if not (is_empty (intersection write_a write_b))
      then claim_compatibility_result ClaimCompatibilityRelation.overlapping_write_scope false
          "overlapping write scope requires conflict review"
          (claim_a.claim_id ∷ claim_b.claim_id ∷ [])
      else if not (is_empty (intersection write_a read_b))
          || not (is_empty (intersection write_b read_a))
      then claim_compatibility_result ClaimCompatibilityRelation.read_only_overlap true
          "write scopes are distinct and only read overlap is present"
          (claim_a.claim_id ∷ claim_b.claim_id ∷ [])
      else claim_compatibility_result ClaimCompatibilityRelation.non_overlapping_write_scope true
          "write scopes are non-overlapping" (claim_a.claim_id ∷ claim_b.claim_id ∷ [])

unfoldable pub boundary_status_for_claim_evidence :
    List String
    → List String
    → List String
    → List String
    → List String
    → List String
    → List String
    → WorkBoundaryStatus
boundary_status_for_claim_evidence blocker_ref_set stale_trigger_ref_set contested_claim_ref_set
      ambiguous_identity_ref_set pending_review_ref_set fault_ref_set refusal_reason_set =
    if not (is_empty fault_ref_set)
    then WorkBoundaryStatus.faulted
    else if not (is_empty ambiguous_identity_ref_set)
    then WorkBoundaryStatus.interrupted
    else if not (is_empty stale_trigger_ref_set)
    then WorkBoundaryStatus.stale
    else if not (is_empty refusal_reason_set)
    then WorkBoundaryStatus.refused
    else if not (is_empty blocker_ref_set)
    then WorkBoundaryStatus.blocked
    else if not (is_empty contested_claim_ref_set)
    then WorkBoundaryStatus.contested
    else if not (is_empty pending_review_ref_set)
    then WorkBoundaryStatus.pending_review
    else WorkBoundaryStatus.dependency_closed
