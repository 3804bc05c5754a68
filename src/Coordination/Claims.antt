-- ===== src/Coordination/Claims.antt =====
-- src/langsop/coordination/claims.py: the validation of claims and boundaries, and compatibility.
pub mod Vocabulary
pub mod Records
pub mod Parts
pub mod Forbidden
pub mod Boundary
pub mod Compatibility
use lang_sop.Coordination.Claims.Records.{
  ClaimIdentityEnvelope, ClaimValidationIssue, ClaimValidationResult,
  WorkBoundaryProjectionEnvelope, claim_identity_envelope_texts, claim_validation_issue,
  claim_validation_result, is_dependency_closed, stop_evidence_present,
  work_boundary_projection_envelope_texts,
}
use lang_sop.Coordination.Claims.Vocabulary.{
  ClaimFreshnessState, ClaimIssueKind, ClaimIssueSeverity, claim_freshness_state_is_contested,
  claim_freshness_state_is_faulted, claim_freshness_state_is_fresh,
  claim_freshness_state_is_interrupted, claim_freshness_state_is_stale,
  direct_source_mutation_action_set, dispatch_action_set, live_control_action_set,
  mailbox_io_action_set, required_claim_identity_field_set, required_work_boundary_field_set,
}
use lang_sop.Base.{
  List, String, if◌then◌else◌, is_empty, is_empty_text, map, not, only_if, some, ◌&&◌, ◌++◌, ◌<>◌,
  ◌==◌, ◌||◌,
}
use lang_sop.Text.Sets.{distinct, intersection}
use lang_sop.Records.{missing_names}

unfoldable pub missing_field_issue : String → ClaimValidationIssue
missing_field_issue field_name =
    claim_validation_issue ClaimIssueKind.missing_field ClaimIssueSeverity.fault
      (field_name <> " is required") (some field_name)

unfoldable pub forbidden_permitted_action_issues : List String → List ClaimValidationIssue
unfolding distinct intersection
forbidden_permitted_action_issues action_set =
    let actions = distinct action_set in
    only_if (not (is_empty (intersection actions direct_source_mutation_action_set))) (
      claim_validation_issue ClaimIssueKind.source_mutation_requested ClaimIssueSeverity.refused
        "coordination projection may not request direct source mutation"
        (some "permitted_action_set"))
    ++ (only_if (not (is_empty (intersection actions mailbox_io_action_set))) (
          claim_validation_issue ClaimIssueKind.mailbox_io_requested ClaimIssueSeverity.refused
            "coordination projection may not request mailbox IO in IR6-IA03"
            (some "permitted_action_set"))
        ++ (only_if (not (is_empty (intersection actions dispatch_action_set))) (
              claim_validation_issue ClaimIssueKind.dispatch_requested ClaimIssueSeverity.refused
                "coordination projection may not request agent dispatch"
                (some "permitted_action_set"))
            ++ (only_if (not (is_empty (intersection actions live_control_action_set))) (
                claim_validation_issue ClaimIssueKind.live_control_requested
                  ClaimIssueSeverity.refused
                  "coordination projection may not request operations or live machine control"
                  (some "permitted_action_set")))))

unfoldable pub severity_for_boundary : WorkBoundaryProjectionEnvelope → ClaimIssueSeverity
severity_for_boundary envelope =
    if not (is_empty envelope.fault_ref_set)
    then ClaimIssueSeverity.fault
    else if not (is_empty envelope.ambiguous_identity_ref_set)
    then ClaimIssueSeverity.interrupt
    else if not (is_empty envelope.stale_trigger_ref_set)
    then ClaimIssueSeverity.stale
    else if not (is_empty envelope.refusal_reason_set)
    then ClaimIssueSeverity.refused
    else ClaimIssueSeverity.blocked

unfoldable pub severity_for_freshness : ClaimFreshnessState → ClaimIssueSeverity
severity_for_freshness freshness_state =
    if claim_freshness_state_is_faulted freshness_state
    then ClaimIssueSeverity.fault
    else if claim_freshness_state_is_interrupted freshness_state
    then ClaimIssueSeverity.interrupt
    else if claim_freshness_state_is_stale freshness_state
    then ClaimIssueSeverity.stale
    else if claim_freshness_state_is_contested freshness_state
    then ClaimIssueSeverity.blocked
    else ClaimIssueSeverity.blocked

unfoldable pub validate_claim_identity_envelope : ClaimIdentityEnvelope → ClaimValidationResult
unfolding forbidden_permitted_action_issues missing_field_issue missing_names
validate_claim_identity_envelope envelope =
    let issues : List ClaimValidationIssue =
      map missing_field_issue
        (missing_names (claim_identity_envelope_texts envelope) required_claim_identity_field_set)
      ++ (only_if (is_empty envelope.authority_basis_ref_set) (
            claim_validation_issue ClaimIssueKind.missing_authority_basis ClaimIssueSeverity.fault
              "authority basis refs are required before claim projection use"
              (some "authority_basis_ref_set"))
          ++ (only_if (is_empty_text envelope.authority_notice_ref) (
                claim_validation_issue ClaimIssueKind.missing_authority_notice
                  ClaimIssueSeverity.fault
                  "authority notice ref is required before claim projection use"
                  (some "authority_notice_ref"))
              ++ (only_if (is_empty envelope.forbidden_action_set) (
                    claim_validation_issue ClaimIssueKind.missing_forbidden_action
                      ClaimIssueSeverity.blocked
                      "forbidden action set must be visible before claim action"
                      (some "forbidden_action_set"))
                  ++ (only_if
                        (envelope.identity_collapse_detected
                          || (envelope.claimant_ref == envelope.conversation_ref))
                        (claim_validation_issue ClaimIssueKind.identity_collapse
                          ClaimIssueSeverity.interrupt
                          "claimant identity and conversation identity must remain distinct"
                          (some "claimant_ref"))
                      ++ (only_if envelope.generated_projection_claimed_as_authority (
                            claim_validation_issue ClaimIssueKind.generated_authority
                              ClaimIssueSeverity.fault
                              "generated claim projection may not be treated as source authority"
                              (some "generated_projection_claimed_as_authority"))
                          ++ ((forbidden_permitted_action_issues
                              envelope.permitted_action_set))))))) in
    claim_validation_result (is_empty issues) issues

unfoldable pub validate_work_boundary_projection_envelope :
    WorkBoundaryProjectionEnvelope → ClaimValidationResult
unfolding forbidden_permitted_action_issues is_dependency_closed missing_field_issue missing_names
    severity_for_boundary severity_for_freshness stop_evidence_present
validate_work_boundary_projection_envelope envelope =
    let issues : List ClaimValidationIssue =
      map missing_field_issue (
        missing_names (work_boundary_projection_envelope_texts envelope)
          required_work_boundary_field_set)
      ++ (only_if (is_empty envelope.authority_basis_ref_set) (
            claim_validation_issue ClaimIssueKind.missing_authority_basis ClaimIssueSeverity.fault
              "authority basis refs are required before work-boundary use"
              (some "authority_basis_ref_set"))
          ++ (only_if (is_empty_text envelope.authority_notice_ref) (
                claim_validation_issue ClaimIssueKind.missing_authority_notice
                  ClaimIssueSeverity.fault
                  "authority notice ref is required before work-boundary use"
                  (some "authority_notice_ref"))
              ++ (only_if (is_dependency_closed envelope && stop_evidence_present envelope) (
                    claim_validation_issue ClaimIssueKind.ready_with_stop_evidence
                      (severity_for_boundary envelope)
                      "dependency-closed boundary cannot carry blocked, stale, contested, interrupt, fault, pending, or refusal evidence"
                      (some "boundary_status"))
                  ++ (only_if
                        (is_dependency_closed envelope
                          && not (claim_freshness_state_is_fresh envelope.freshness_state))
                        (claim_validation_issue ClaimIssueKind.ready_with_unfresh_state
                          (severity_for_freshness envelope.freshness_state)
                          "dependency-closed boundary requires fresh freshness state"
                          (some "freshness_state"))
                      ++ (only_if envelope.generated_projection_claimed_as_authority (
                            claim_validation_issue ClaimIssueKind.generated_authority
                              ClaimIssueSeverity.fault
                              "generated work-boundary projection may not be treated as source authority"
                              (some "generated_projection_claimed_as_authority"))
                          ++ (only_if envelope.source_authority_mutation_requested (
                                claim_validation_issue ClaimIssueKind.source_mutation_requested
                                  ClaimIssueSeverity.refused
                                  "work-boundary projection may not request source authority mutation"
                                  (some "source_authority_mutation_requested"))
                              ++ ((forbidden_permitted_action_issues
                                  envelope.required_route_set)))))))) in
    claim_validation_result (is_empty issues) issues
