-- ===== src/Surfaces/State/Fields.antt =====
-- The field sets and other sets of src/langsop/surfaces/projection_state.py, and tests on its enumerations.
use lang_sop.Surfaces.State.Vocabulary.{
  FreshnessState, ProjectionStateIssueSeverity, ProjectionStatus,
}
use lang_sop.Base.{Bool, List, String, [], false, true, ◌∷◌}

abbrev pub required_projection_state_field_set : List String
required_projection_state_field_set =
    "projection_id" ∷ "projection_kind" ∷ "projected_subject_ref" ∷ "source_record_ref_set"
    ∷ "lineage_edge_set" ∷ "generated_at" ∷ "projected_status" ∷ "freshness_state"
    ∷ "invalidation_ref_set" ∷ "blocker_ref_set" ∷ "stale_source_ref_set" ∷ "fault_record_ref_set"
    ∷ "interrupt_context_ref_set" ∷ "contested_claim_ref_set" ∷ "pending_review_ref_set"
    ∷ "supported_action_route_set" ∷ "refusal_reason_set" ∷ []

abbrev pub freshness_state_is_stale : FreshnessState → Bool
freshness_state_is_stale FreshnessState.stale = true
freshness_state_is_stale other = false

abbrev pub freshness_state_is_interrupted : FreshnessState → Bool
freshness_state_is_interrupted FreshnessState.interrupted = true
freshness_state_is_interrupted other = false

abbrev pub freshness_state_is_faulted : FreshnessState → Bool
freshness_state_is_faulted FreshnessState.faulted = true
freshness_state_is_faulted other = false

abbrev pub freshness_state_is_fresh : FreshnessState → Bool
freshness_state_is_fresh FreshnessState.fresh = true
freshness_state_is_fresh other = false

abbrev pub projection_state_issue_severity_is_fault : ProjectionStateIssueSeverity → Bool
projection_state_issue_severity_is_fault ProjectionStateIssueSeverity.fault = true
projection_state_issue_severity_is_fault other = false

abbrev pub projection_state_issue_severity_is_interrupt : ProjectionStateIssueSeverity → Bool
projection_state_issue_severity_is_interrupt ProjectionStateIssueSeverity.interrupt = true
projection_state_issue_severity_is_interrupt other = false

abbrev pub projection_state_issue_severity_is_stale : ProjectionStateIssueSeverity → Bool
projection_state_issue_severity_is_stale ProjectionStateIssueSeverity.stale = true
projection_state_issue_severity_is_stale other = false

abbrev pub projection_state_issue_severity_is_blocked : ProjectionStateIssueSeverity → Bool
projection_state_issue_severity_is_blocked ProjectionStateIssueSeverity.blocked = true
projection_state_issue_severity_is_blocked other = false

abbrev pub projection_state_issue_severity_is_refused : ProjectionStateIssueSeverity → Bool
projection_state_issue_severity_is_refused ProjectionStateIssueSeverity.refused = true
projection_state_issue_severity_is_refused other = false

abbrev pub projection_status_is_ready : ProjectionStatus → Bool
projection_status_is_ready ProjectionStatus.ready = true
projection_status_is_ready other = false

abbrev pub in_stop_state_status_set : ProjectionStatus → Bool
in_stop_state_status_set ProjectionStatus.blocked = true
in_stop_state_status_set ProjectionStatus.stale = true
in_stop_state_status_set ProjectionStatus.faulted = true
in_stop_state_status_set ProjectionStatus.interrupted = true
in_stop_state_status_set ProjectionStatus.contested = true
in_stop_state_status_set ProjectionStatus.pending_review = true
in_stop_state_status_set ProjectionStatus.unsupported_scope = true
in_stop_state_status_set ProjectionStatus.refused = true
in_stop_state_status_set other = false
