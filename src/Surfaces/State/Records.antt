-- ===== src/Surfaces/State/Records.antt =====
-- The records of src/langsop/surfaces/projection_state.py.
use lang_sop.Surfaces.State.Fields.{
  projection_state_issue_severity_is_blocked, projection_state_issue_severity_is_fault,
  projection_state_issue_severity_is_interrupt, projection_state_issue_severity_is_refused,
  projection_state_issue_severity_is_stale, projection_status_is_ready,
}
use lang_sop.Surfaces.State.Vocabulary.{
  FreshnessState, ProjectionStateIssueKind, ProjectionStateIssueSeverity, ProjectionStatus,
}
use lang_sop.Base.{Bool, List, Option, String, [], any, is_empty, not, ◌||◌, ◌∷◌}
use lang_sop.Records.{Dict}

pub record ProjectionStateIssue : Type 0 where
  pub issue_kind : ProjectionStateIssueKind
  pub severity : ProjectionStateIssueSeverity
  pub reason : String
  pub field_name : Option String

abbrev pub projection_state_issue :
    ProjectionStateIssueKind
    → ProjectionStateIssueSeverity
    → String
    → Option String
    → ProjectionStateIssue
projection_state_issue issue_kind severity reason field_name = record {
  issue_kind = issue_kind;
  severity = severity;
  reason = reason;
  field_name = field_name;
}

pub record ProjectionStateValidationResult : Type 0 where
  pub accepted : Bool
  pub issues : List ProjectionStateIssue

abbrev pub projection_state_validation_result :
    Bool → List ProjectionStateIssue → ProjectionStateValidationResult
projection_state_validation_result accepted' issues = record {
  accepted = accepted';
  issues = issues;
}

pub record StopStateContext : Type 0 where
  pub stop_state_kind : ProjectionStatus
  pub stop_state_ref_set : List String
  pub evidence_ref_set : List String
  pub required_resolution : String
  pub allowed_reconsideration_route_set : List String
  pub forbidden_action_set : List String

pub record ProjectionRefusalRecord : Type 0 where
  pub refusal_reason : String
  pub evidence_ref_set : List String
  pub required_resolution : String
  pub authority_notice_ref : String

pub record ProjectionStateEnvelope : Type 0 where
  pub projection_id : String
  pub projection_kind : String
  pub projected_subject_ref : String
  pub source_record_ref_set : List String
  pub lineage_edge_set : List String
  pub generated_at : String
  pub projected_status : ProjectionStatus
  pub freshness_state : FreshnessState
  pub invalidation_ref_set : List String
  pub blocker_ref_set : List String
  pub stale_source_ref_set : List String
  pub fault_record_ref_set : List String
  pub interrupt_context_ref_set : List String
  pub contested_claim_ref_set : List String
  pub pending_review_ref_set : List String
  pub supported_action_route_set : List String
  pub refusal_reason_set : List String
  pub authority_notice_ref : String
  pub stop_state_context_set : List StopStateContext
  pub generated_projection_claimed_as_authority : Bool
  pub source_authority_mutation_requested : Bool

abbrev pub projection_state_envelope_texts : ProjectionStateEnvelope → Dict
projection_state_envelope_texts e =
    ("projection_id", e.projection_id)
    ∷ ("projection_kind", e.projection_kind)
    ∷ ("projected_subject_ref", e.projected_subject_ref)
    ∷ ("generated_at", e.generated_at)
    ∷ ("authority_notice_ref", e.authority_notice_ref)
    ∷ []

unfoldable pub has_fault : ProjectionStateValidationResult → Bool
unfolding any
has_fault e = any (λ issue. projection_state_issue_severity_is_fault issue.severity) e.issues

unfoldable pub has_interrupt : ProjectionStateValidationResult → Bool
unfolding any
has_interrupt e =
    any (λ issue. projection_state_issue_severity_is_interrupt issue.severity) e.issues

unfoldable pub has_stale : ProjectionStateValidationResult → Bool
unfolding any
has_stale e = any (λ issue. projection_state_issue_severity_is_stale issue.severity) e.issues

unfoldable pub has_blocker : ProjectionStateValidationResult → Bool
unfolding any
has_blocker e = any (λ issue. projection_state_issue_severity_is_blocked issue.severity) e.issues

unfoldable pub has_refusal : ProjectionStateValidationResult → Bool
unfolding any
has_refusal e = any (λ issue. projection_state_issue_severity_is_refused issue.severity) e.issues

unfoldable pub stop_evidence_present : ProjectionStateEnvelope → Bool
stop_evidence_present e =
    not (is_empty e.invalidation_ref_set)
    || (not (is_empty e.blocker_ref_set)
        || (not (is_empty e.stale_source_ref_set)
            || (not (is_empty e.fault_record_ref_set)
                || (not (is_empty e.interrupt_context_ref_set)
                    || (not (is_empty e.contested_claim_ref_set)
                        || (not (is_empty e.pending_review_ref_set)
                            || (not (is_empty e.refusal_reason_set)
                                || not (is_empty e.stop_state_context_set))))))))

unfoldable pub is_ready : ProjectionStateEnvelope → Bool
is_ready e = projection_status_is_ready e.projected_status
