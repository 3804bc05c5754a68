-- ===== src/Coordination/Reviews.antt =====
-- src/langsop/coordination/reviews.py: the review of a conflict and of a human override.
pub mod Vocabulary
pub mod Records
pub mod Override
use lang_sop.Coordination.Reviews.Records.{
  CoordinationConflictContext, CoordinationReviewIssue, CoordinationReviewResult,
  HumanOverrideEnvelope, coordination_review_issue, coordination_review_result,
}
use lang_sop.Coordination.Reviews.Vocabulary.{
  CoordinationReviewDecision, CoordinationReviewIssueKind, CoordinationReviewIssueSeverity,
  coordination_review_issue_kind_is_ambiguous_identity,
  coordination_review_issue_kind_is_contested_claim,
  coordination_review_issue_kind_is_hidden_scope_expansion,
  coordination_review_issue_kind_is_pending_human_override,
  coordination_review_issue_kind_is_stale_claim, coordination_review_issue_severity_is_blocked,
  coordination_review_issue_severity_is_fault, coordination_review_issue_severity_is_interrupt,
  coordination_review_issue_severity_is_refused, coordination_review_issue_severity_is_stale,
  forbidden_override_effect_set,
}
use lang_sop.Base.{
  List, String, [], any, concat_map, if◌then◌else◌, is_empty, not, only_if, ◌++◌, ◌∷◌,
}
use lang_sop.Text.Sets.{distinct, intersection, sorted}

unfoldable pub decision_for_issues : List CoordinationReviewIssue → CoordinationReviewDecision
unfolding any
decision_for_issues issues =
    let issue_tuple = issues in
    if any (λ issue. coordination_review_issue_severity_is_fault issue.severity) issue_tuple
    then CoordinationReviewDecision.rebake
    else if any (λ issue. coordination_review_issue_severity_is_interrupt issue.severity)
        issue_tuple
    then CoordinationReviewDecision.interrupt
    else if any (λ issue. coordination_review_issue_severity_is_stale issue.severity) issue_tuple
    then CoordinationReviewDecision.refresh
    else if any (λ issue. coordination_review_issue_severity_is_refused issue.severity) issue_tuple
    then CoordinationReviewDecision.refuse
    else if any (λ issue. coordination_review_issue_severity_is_blocked issue.severity) issue_tuple
    then CoordinationReviewDecision.block
    else CoordinationReviewDecision.proceed

unfoldable pub required_routes_for_issues : List CoordinationReviewIssue → List String
unfolding concat_map distinct sorted
required_routes_for_issues issues =
    let routes : List String = distinct (
      concat_map
        (λ issue.
          (if (coordination_review_issue_kind_is_hidden_scope_expansion issue.issue_kind)
            then ("fault_review" ∷ "packet_rebake" ∷ [])
            else (if (coordination_review_issue_kind_is_ambiguous_identity issue.issue_kind)
                then ("identity_clarification" ∷ "human_override" ∷ [])
                else (if (coordination_review_issue_kind_is_stale_claim issue.issue_kind)
                    then ("refresh_claim" ∷ "release_claim" ∷ "supersede_claim" ∷ "rebake" ∷ [])
                    else (if (coordination_review_issue_kind_is_contested_claim issue.issue_kind)
                        then ("coordination_conflict_signal" ∷ "SOP_first_interrupt"
                            ∷ "completion_review" ∷ [])
                        else (if (coordination_review_issue_kind_is_pending_human_override
                              issue.issue_kind)
                            then ("human_override_review" ∷ "completion_review" ∷ [])
                            else []))))))
        issues) in
    sorted routes

unfoldable pub review_coordination_conflict : CoordinationConflictContext → CoordinationReviewResult
unfolding decision_for_issues required_routes_for_issues sorted
review_coordination_conflict context =
    let issues : List CoordinationReviewIssue =
      only_if (not (is_empty context.hidden_scope_expansion_ref_set)) (
        coordination_review_issue CoordinationReviewIssueKind.hidden_scope_expansion
          CoordinationReviewIssueSeverity.fault
          "hidden scope expansion requires invalidation or rebake"
          context.hidden_scope_expansion_ref_set)
      ++ (only_if (not (is_empty context.ambiguous_identity_ref_set)) (
            coordination_review_issue CoordinationReviewIssueKind.ambiguous_identity
              CoordinationReviewIssueSeverity.interrupt "ambiguous identity requires clarification"
              context.ambiguous_identity_ref_set)
          ++ (only_if (not (is_empty context.stale_claim_ref_set)) (
                coordination_review_issue CoordinationReviewIssueKind.stale_claim
                  CoordinationReviewIssueSeverity.stale
                  "stale claim requires refresh, release, supersession, or rebake"
                  context.stale_claim_ref_set)
              ++ (only_if (not (is_empty context.contested_claim_ref_set)) (
                    coordination_review_issue CoordinationReviewIssueKind.contested_claim
                      CoordinationReviewIssueSeverity.blocked
                      "contested claims block downstream gates" context.contested_claim_ref_set)
                  ++ (only_if (not (is_empty context.pending_human_override_ref_set)) (
                      coordination_review_issue CoordinationReviewIssueKind.pending_human_override
                        CoordinationReviewIssueSeverity.blocked
                        "pending human override blocks automatic progression"
                        context.pending_human_override_ref_set))))) in
    let decision = decision_for_issues issues in
    coordination_review_result decision issues (required_routes_for_issues issues)
      (sorted forbidden_override_effect_set) context.authority_notice_ref

unfoldable pub review_human_override : HumanOverrideEnvelope → CoordinationReviewResult
unfolding distinct intersection sorted
review_human_override envelope =
    let requested_effect_set = distinct envelope.requested_effect_set in
    let forbidden_effect_set =
      distinct ((distinct envelope.forbidden_effect_set) ++ forbidden_override_effect_set) in
    let issues : List CoordinationReviewIssue =
      only_if envelope.expired (
        coordination_review_issue CoordinationReviewIssueKind.expired_override
          CoordinationReviewIssueSeverity.refused "human override is expired"
          (envelope.override_ref ∷ []))
      ++ (only_if envelope.out_of_scope (
            coordination_review_issue CoordinationReviewIssueKind.out_of_scope_override
              CoordinationReviewIssueSeverity.refused
              "human override request is out of accepted scope" (envelope.override_ref ∷ []))
          ++ (only_if (not (is_empty (intersection requested_effect_set forbidden_effect_set))) (
              coordination_review_issue CoordinationReviewIssueKind.forbidden_effect_requested
                CoordinationReviewIssueSeverity.refused
                "human override cannot authorize forbidden effects"
                (sorted (intersection requested_effect_set forbidden_effect_set))))) in
    let decision =
      if is_empty issues
      then CoordinationReviewDecision.human_override
      else CoordinationReviewDecision.refuse in
    coordination_review_result decision issues ("completion_review" ∷ "scope_recheck" ∷ [])
      (sorted forbidden_effect_set) envelope.authority_notice_ref
