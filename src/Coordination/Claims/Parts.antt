-- ===== src/Coordination/Claims/Parts.antt =====
-- The constructors from keyword arguments of src/langsop/coordination/claims.py.
use lang_sop.Coordination.Claims.Records.{ClaimIdentityEnvelope, WorkBoundaryProjectionEnvelope}
use lang_sop.Coordination.Claims.Vocabulary.{
  ClaimCompatibilityRelation, ClaimFreshnessState, ClaimProjectionStatus, WorkBoundaryStatus,
  claim_compatibility_relation_value, claim_freshness_state_value, claim_projection_status_value,
  work_boundary_status_value,
}
use lang_sop.Base.{Bool, List, String, [], ◌∷◌}
use lang_sop.Records.{member}
use lang_sop.Operators.Values.{Converted, value, ◌>>=◌}

abbrev pub claim_freshness_state_members : List ClaimFreshnessState
claim_freshness_state_members =
    ClaimFreshnessState.fresh ∷ ClaimFreshnessState.stale ∷ ClaimFreshnessState.unknown
    ∷ ClaimFreshnessState.contested ∷ ClaimFreshnessState.interrupted ∷ ClaimFreshnessState.blocked
    ∷ ClaimFreshnessState.faulted ∷ ClaimFreshnessState.pending_review ∷ []

abbrev pub claim_projection_status_members : List ClaimProjectionStatus
claim_projection_status_members =
    ClaimProjectionStatus.accepted ∷ ClaimProjectionStatus.blocked ∷ ClaimProjectionStatus.contested
    ∷ ClaimProjectionStatus.stale ∷ ClaimProjectionStatus.interrupted
    ∷ ClaimProjectionStatus.faulted ∷ ClaimProjectionStatus.pending_review
    ∷ ClaimProjectionStatus.refused ∷ []

-- The arguments of `claim_identity_envelope_from_parts`. A member of an enumeration is given by its text.
pub record ClaimIdentityParts : Type 0 where
  pub claim_id : String
  pub claimant_ref : String
  pub conversation_ref : String
  pub work_packet_ref : String
  pub scope_subject_ref_set : List String
  pub authority_basis_ref_set : List String
  pub authority_notice_ref : String
  pub freshness_state : String
  pub permitted_action_set : List String
  pub forbidden_action_set : List String
  pub trust_limit : String
  pub claim_status : String
  pub compatibility_evidence_ref_set : List String
  pub unresolved_review_ref_set : List String
  pub generated_projection_claimed_as_authority : Bool
  pub identity_collapse_detected : Bool

unfoldable pub claim_identity_envelope_from_parts :
    ClaimIdentityParts → Converted ClaimIdentityEnvelope
unfolding member claim_freshness_state_value claim_projection_status_value
claim_identity_envelope_from_parts p = do
  freshness_state_member ←
      member claim_freshness_state_value "ClaimFreshnessState" claim_freshness_state_members
        p.freshness_state
  claim_status_member ←
      member claim_projection_status_value "ClaimProjectionStatus" claim_projection_status_members
        p.claim_status
  value (record {
    claim_id = p.claim_id;
    claimant_ref = p.claimant_ref;
    conversation_ref = p.conversation_ref;
    work_packet_ref = p.work_packet_ref;
    scope_subject_ref_set = p.scope_subject_ref_set;
    authority_basis_ref_set = p.authority_basis_ref_set;
    authority_notice_ref = p.authority_notice_ref;
    freshness_state = freshness_state_member;
    permitted_action_set = p.permitted_action_set;
    forbidden_action_set = p.forbidden_action_set;
    trust_limit = p.trust_limit;
    claim_status = claim_status_member;
    compatibility_evidence_ref_set = p.compatibility_evidence_ref_set;
    unresolved_review_ref_set = p.unresolved_review_ref_set;
    generated_projection_claimed_as_authority = p.generated_projection_claimed_as_authority;
    identity_collapse_detected = p.identity_collapse_detected;
  })

abbrev pub work_boundary_status_members : List WorkBoundaryStatus
work_boundary_status_members =
    WorkBoundaryStatus.dependency_closed ∷ WorkBoundaryStatus.compatible_parallel
    ∷ WorkBoundaryStatus.blocked ∷ WorkBoundaryStatus.stale ∷ WorkBoundaryStatus.contested
    ∷ WorkBoundaryStatus.interrupted ∷ WorkBoundaryStatus.faulted
    ∷ WorkBoundaryStatus.pending_review ∷ WorkBoundaryStatus.refused ∷ []

abbrev pub claim_compatibility_relation_members : List ClaimCompatibilityRelation
claim_compatibility_relation_members =
    ClaimCompatibilityRelation.same_claim ∷ ClaimCompatibilityRelation.non_overlapping_write_scope
    ∷ ClaimCompatibilityRelation.read_only_overlap
    ∷ ClaimCompatibilityRelation.overlapping_write_scope
    ∷ ClaimCompatibilityRelation.identical_write_scope
    ∷ ClaimCompatibilityRelation.ambiguous_scope_relation ∷ []

-- The arguments of `work_boundary_projection_envelope_from_parts`. A member of an enumeration is given by its text.
pub record WorkBoundaryProjectionParts : Type 0 where
  pub projection_id : String
  pub claim_ref : String
  pub scope_subject_ref_set : List String
  pub authority_basis_ref_set : List String
  pub authority_notice_ref : String
  pub freshness_state : String
  pub boundary_status : String
  pub compatibility_relation : String
  pub required_route_set : List String
  pub forbidden_action_set : List String
  pub blocker_ref_set : List String
  pub stale_trigger_ref_set : List String
  pub contested_claim_ref_set : List String
  pub ambiguous_identity_ref_set : List String
  pub pending_review_ref_set : List String
  pub fault_ref_set : List String
  pub refusal_reason_set : List String
  pub generated_projection_claimed_as_authority : Bool
  pub source_authority_mutation_requested : Bool

unfoldable pub work_boundary_projection_envelope_from_parts :
    WorkBoundaryProjectionParts → Converted WorkBoundaryProjectionEnvelope
unfolding member claim_freshness_state_value work_boundary_status_value
    claim_compatibility_relation_value
work_boundary_projection_envelope_from_parts p = do
  freshness_state_member ←
      member claim_freshness_state_value "ClaimFreshnessState" claim_freshness_state_members
        p.freshness_state
  boundary_status_member ←
      member work_boundary_status_value "WorkBoundaryStatus" work_boundary_status_members
        p.boundary_status
  compatibility_relation_member ←
      member claim_compatibility_relation_value "ClaimCompatibilityRelation"
        claim_compatibility_relation_members p.compatibility_relation
  value (record {
    projection_id = p.projection_id;
    claim_ref = p.claim_ref;
    scope_subject_ref_set = p.scope_subject_ref_set;
    authority_basis_ref_set = p.authority_basis_ref_set;
    authority_notice_ref = p.authority_notice_ref;
    freshness_state = freshness_state_member;
    boundary_status = boundary_status_member;
    compatibility_relation = compatibility_relation_member;
    required_route_set = p.required_route_set;
    forbidden_action_set = p.forbidden_action_set;
    blocker_ref_set = p.blocker_ref_set;
    stale_trigger_ref_set = p.stale_trigger_ref_set;
    contested_claim_ref_set = p.contested_claim_ref_set;
    ambiguous_identity_ref_set = p.ambiguous_identity_ref_set;
    pending_review_ref_set = p.pending_review_ref_set;
    fault_ref_set = p.fault_ref_set;
    refusal_reason_set = p.refusal_reason_set;
    generated_projection_claimed_as_authority = p.generated_projection_claimed_as_authority;
    source_authority_mutation_requested = p.source_authority_mutation_requested;
  })
