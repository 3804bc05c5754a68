-- ===== src/Surfaces/State/Parts.antt =====
-- The constructor from keyword arguments of src/langsop/surfaces/projection_state.py.
use lang_sop.Surfaces.State.Records.{ProjectionStateEnvelope, StopStateContext}
use lang_sop.Surfaces.State.Vocabulary.{
  FreshnessState, ProjectionStatus, freshness_state_value, projection_status_value,
}
use lang_sop.Base.{Bool, List, String, [], ◌∷◌}
use lang_sop.Records.{member}
use lang_sop.Operators.Values.{Converted, value, ◌>>=◌}

abbrev pub projection_status_members : List ProjectionStatus
projection_status_members =
    ProjectionStatus.ready ∷ ProjectionStatus.blocked ∷ ProjectionStatus.stale
    ∷ ProjectionStatus.faulted ∷ ProjectionStatus.interrupted ∷ ProjectionStatus.contested
    ∷ ProjectionStatus.pending_review ∷ ProjectionStatus.unsupported_scope
    ∷ ProjectionStatus.refused ∷ []

abbrev pub freshness_state_members : List FreshnessState
freshness_state_members =
    FreshnessState.fresh ∷ FreshnessState.stale ∷ FreshnessState.unknown ∷ FreshnessState.contested
    ∷ FreshnessState.interrupted ∷ FreshnessState.blocked ∷ FreshnessState.faulted
    ∷ FreshnessState.pending_review ∷ []

-- The arguments of `projection_state_envelope_from_parts`. A member of an enumeration is given by its text.
pub record ProjectionStateParts : Type 0 where
  pub projection_id : String
  pub projection_kind : String
  pub projected_subject_ref : String
  pub source_record_ref_set : List String
  pub lineage_edge_set : List String
  pub generated_at : String
  pub projected_status : String
  pub freshness_state : String
  pub invalidation_ref_set : List String
  pub blocker_ref_set : List String
  pub stale_source_ref_set : List String
  pub fault_record_ref_set : List String
  pub interrupt_context_ref_set : List String
  pub contested_claim_ref_set : List String
  pub pending_review_ref_set : List String
  pub supported_action_route_set : List String
  pub refusal_reason_set : List String
  pub authority_notice_ref : String
  pub stop_state_context_set : List StopStateContext
  pub generated_projection_claimed_as_authority : Bool
  pub source_authority_mutation_requested : Bool

unfoldable pub projection_state_envelope_from_parts :
    ProjectionStateParts → Converted ProjectionStateEnvelope
unfolding member projection_status_value freshness_state_value
projection_state_envelope_from_parts p = do
  projected_status_member ←
      member projection_status_value "ProjectionStatus" projection_status_members p.projected_status
  freshness_state_member ←
      member freshness_state_value "FreshnessState" freshness_state_members p.freshness_state
  value (record {
    projection_id = p.projection_id;
    projection_kind = p.projection_kind;
    projected_subject_ref = p.projected_subject_ref;
    source_record_ref_set = p.source_record_ref_set;
    lineage_edge_set = p.lineage_edge_set;
    generated_at = p.generated_at;
    projected_status = projected_status_member;
    freshness_state = freshness_state_member;
    invalidation_ref_set = p.invalidation_ref_set;
    blocker_ref_set = p.blocker_ref_set;
    stale_source_ref_set = p.stale_source_ref_set;
    fault_record_ref_set = p.fault_record_ref_set;
    interrupt_context_ref_set = p.interrupt_context_ref_set;
    contested_claim_ref_set = p.contested_claim_ref_set;
    pending_review_ref_set = p.pending_review_ref_set;
    supported_action_route_set = p.supported_action_route_set;
    refusal_reason_set = p.refusal_reason_set;
    authority_notice_ref = p.authority_notice_ref;
    stop_state_context_set = p.stop_state_context_set;
    generated_projection_claimed_as_authority = p.generated_projection_claimed_as_authority;
    source_authority_mutation_requested = p.source_authority_mutation_requested;
  })
