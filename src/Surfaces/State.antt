-- ===== src/Surfaces/State.antt =====
-- src/langsop/surfaces/projection_state.py: the check of a projection, and the status that its evidence gives.
pub mod Vocabulary
pub mod Fields
pub mod Records
pub mod Parts
use lang_sop.Surfaces.State.Records.{
  ProjectionStateEnvelope, ProjectionStateIssue, ProjectionStateValidationResult, is_ready,
  projection_state_envelope_texts, projection_state_issue, projection_state_validation_result,
  stop_evidence_present,
}
use lang_sop.Surfaces.State.Fields.{
  freshness_state_is_faulted, freshness_state_is_fresh, freshness_state_is_interrupted,
  freshness_state_is_stale, required_projection_state_field_set,
}
use lang_sop.Surfaces.State.Vocabulary.{
  FreshnessState, ProjectionStateIssueKind, ProjectionStateIssueSeverity, ProjectionStatus,
}
use lang_sop.Base.{
  List, String, if◌then◌else◌, is_empty, is_empty_text, map, not, only_if, some, ◌&&◌, ◌++◌, ◌<>◌,
  ◌||◌,
}
use lang_sop.Records.{missing_names}

unfoldable pub severity_for_stop_evidence : ProjectionStateEnvelope → ProjectionStateIssueSeverity
severity_for_stop_evidence envelope =
    if not (is_empty envelope.fault_record_ref_set)
    then ProjectionStateIssueSeverity.fault
    else if not (is_empty envelope.interrupt_context_ref_set)
    then ProjectionStateIssueSeverity.interrupt
    else if not (is_empty envelope.stale_source_ref_set)
        || not (is_empty envelope.invalidation_ref_set)
    then ProjectionStateIssueSeverity.stale
    else if not (is_empty envelope.refusal_reason_set)
    then ProjectionStateIssueSeverity.refused
    else ProjectionStateIssueSeverity.blocked

unfoldable pub severity_for_freshness : FreshnessState → ProjectionStateIssueSeverity
severity_for_freshness freshness_state =
    if freshness_state_is_faulted freshness_state
    then ProjectionStateIssueSeverity.fault
    else if freshness_state_is_interrupted freshness_state
    then ProjectionStateIssueSeverity.interrupt
    else if freshness_state_is_stale freshness_state
    then ProjectionStateIssueSeverity.stale
    else ProjectionStateIssueSeverity.blocked

unfoldable pub validate_projection_state_envelope :
    ProjectionStateEnvelope → ProjectionStateValidationResult
unfolding is_ready missing_names severity_for_freshness severity_for_stop_evidence
    stop_evidence_present
validate_projection_state_envelope envelope =
    let issues : List ProjectionStateIssue =
      map
        (λ field_name.
          projection_state_issue ProjectionStateIssueKind.missing_field
            ProjectionStateIssueSeverity.fault (field_name <> " is required") (some field_name))
        (missing_names (projection_state_envelope_texts envelope)
          required_projection_state_field_set)
      ++ (only_if (is_empty envelope.source_record_ref_set) (
            projection_state_issue ProjectionStateIssueKind.missing_source_ref
              ProjectionStateIssueSeverity.fault "source record refs are required"
              (some "source_record_ref_set"))
          ++ (only_if (is_empty envelope.lineage_edge_set) (
                projection_state_issue ProjectionStateIssueKind.missing_lineage
                  ProjectionStateIssueSeverity.fault "lineage edge refs are required"
                  (some "lineage_edge_set"))
              ++ (only_if (is_empty_text envelope.authority_notice_ref) (
                    projection_state_issue ProjectionStateIssueKind.missing_authority_notice
                      ProjectionStateIssueSeverity.fault
                      "authority notice ref is required for decision-facing projection state"
                      (some "authority_notice_ref"))
                  ++ (only_if (is_ready envelope && stop_evidence_present envelope) (
                        projection_state_issue ProjectionStateIssueKind.ready_with_stop_state
                          (severity_for_stop_evidence envelope)
                          "ready projection cannot carry blocked, stale, fault, interrupt, pending, contested, or refusal evidence"
                          (some "projected_status"))
                      ++ (only_if
                            (is_ready envelope
                              && not (freshness_state_is_fresh envelope.freshness_state))
                            (projection_state_issue
                              ProjectionStateIssueKind.ready_with_unfresh_state
                              (severity_for_freshness envelope.freshness_state)
                              "ready projection requires fresh freshness state"
                              (some "freshness_state"))
                          ++ (only_if envelope.generated_projection_claimed_as_authority (
                                projection_state_issue ProjectionStateIssueKind.generated_authority
                                  ProjectionStateIssueSeverity.fault
                                  "generated projection may not be treated as source authority"
                                  (some "generated_projection_claimed_as_authority"))
                              ++ (only_if envelope.source_authority_mutation_requested (
                                  projection_state_issue
                                    ProjectionStateIssueKind.source_mutation_requested
                                    ProjectionStateIssueSeverity.refused
                                    "projection state may not request source authority mutation"
                                    (some "source_authority_mutation_requested"))))))))) in
    projection_state_validation_result (is_empty issues) issues

unfoldable pub projected_status_for_evidence :
    List String
    → List String
    → List String
    → List String
    → List String
    → List String
    → List String
    → ProjectionStatus
projected_status_for_evidence blocker_ref_set stale_source_ref_set fault_record_ref_set
      interrupt_context_ref_set contested_claim_ref_set pending_review_ref_set refusal_reason_set =
    if not (is_empty fault_record_ref_set)
    then ProjectionStatus.faulted
    else if not (is_empty interrupt_context_ref_set)
    then ProjectionStatus.interrupted
    else if not (is_empty stale_source_ref_set)
    then ProjectionStatus.stale
    else if not (is_empty refusal_reason_set)
    then ProjectionStatus.refused
    else if not (is_empty blocker_ref_set)
    then ProjectionStatus.blocked
    else if not (is_empty contested_claim_ref_set)
    then ProjectionStatus.contested
    else if not (is_empty pending_review_ref_set)
    then ProjectionStatus.pending_review
    else ProjectionStatus.ready
