-- ===== src/Operations/Safety.antt =====
-- src/langsop/operations/resource_safety.py: the review of a request with its evidence.
pub mod Vocabulary
pub mod Fields
pub mod Records
pub mod Approval
pub mod Evidence
pub mod Risk
pub mod Boundaries
pub mod Parts
pub mod Scoped
use lang_sop.Operations.Safety.Records.{
  BlastRadiusEnvelope, HumanApprovalEnvelope, ResourceSafetyIssue, ResourceSafetyReview,
  RollbackAbortRouteEnvelope, resource_safety_issue,
}
use lang_sop.Operations.Safety.Fields.{
  resource_safety_issue_kind_is_missing_authority_notice_or_live_control_implication,
  resource_safety_issue_kind_is_missing_blast_radius_or_unknown_blast_radius,
  resource_safety_issue_kind_is_missing_rollback_or_abort_route,
  resource_safety_issue_kind_is_stale_approval_or_another,
}
use lang_sop.Operations.Safety.Vocabulary.{ResourceSafetyIssueKind, ResourceSafetyIssueSeverity}
use lang_sop.Operations.Requests.Records.{OperationRequestEnvelope}
use lang_sop.Operations.Requests.Fields.{high_risk_target_set}
use lang_sop.Operations.Safety.Approval.{validate_human_approval_for_request}
use lang_sop.Operations.Safety.Evidence.{validate_blast_radius, validate_rollback_abort_route}
use lang_sop.Operations.Safety.Risk.{
  classify_resource_target_safety, requires_human_review, risk_level_for_request,
}
use lang_sop.Operations.Safety.Boundaries.{request_safety_issues}
use lang_sop.Base.{
  List, Option, String, [], concat_map, contains, false, from_some, if◌then◌else◌, is_empty,
  is_some, not, ◌&&◌, ◌++◌, ◌||◌, ◌∷◌,
}
use lang_sop.Text.Sets.{distinct, sorted}

unfoldable pub safe_routes_for_issues : List ResourceSafetyIssue → List String
unfolding concat_map distinct sorted
safe_routes_for_issues issues =
    let routes : List String = distinct (
      concat_map
        (λ issue.
          (if (resource_safety_issue_kind_is_missing_blast_radius_or_unknown_blast_radius
              issue.issue_kind)
            then ("collect_blast_radius_evidence" ∷ [])
            else (if (resource_safety_issue_kind_is_missing_rollback_or_abort_route
                  issue.issue_kind)
                then ("define_rollback_abort_route" ∷ [])
                else (if (resource_safety_issue_kind_is_stale_approval_or_another issue.issue_kind)
                    then ("request_fresh_scoped_human_approval" ∷ [])
                    else (if (resource_safety_issue_kind_is_missing_authority_notice_or_live_control_implication
                          issue.issue_kind)
                        then ("rebake_authority_boundary" ∷ [])
                        else ("stop_without_live_effect" ∷ []))))))
        issues) in
    sorted routes

unfoldable pub review_resource_safety :
    OperationRequestEnvelope
    → Option BlastRadiusEnvelope
    → Option RollbackAbortRouteEnvelope
    → Option HumanApprovalEnvelope
    → ResourceSafetyReview
unfolding classify_resource_target_safety contains request_safety_issues requires_human_review
    risk_level_for_request safe_routes_for_issues validate_blast_radius
    validate_human_approval_for_request validate_rollback_abort_route
review_resource_safety request blast_radius rollback_route human_approval =
    let issues : List ResourceSafetyIssue =
      (request_safety_issues request blast_radius)
      ++ ((if (not (is_some blast_radius)
              && (contains request.resource_target high_risk_target_set))
            then (resource_safety_issue ResourceSafetyIssueKind.missing_blast_radius
                  ResourceSafetyIssueSeverity.review_required
                  "high-risk requests require blast-radius evidence"
                  (request.operation_request_id ∷ [])
                ∷ [])
            else from_some (λ blast_radius. (validate_blast_radius blast_radius)) blast_radius)
          ++ ((if (not (is_some rollback_route)
                  && (contains request.resource_target high_risk_target_set))
                then (resource_safety_issue ResourceSafetyIssueKind.missing_rollback_or_abort_route
                      ResourceSafetyIssueSeverity.blocked
                      "high-risk requests require rollback or abort route evidence"
                      (request.operation_request_id ∷ [])
                    ∷ [])
                else from_some (λ rollback_route. (validate_rollback_abort_route rollback_route))
                    rollback_route)
              ++ ((if (not (is_some human_approval) && requires_human_review request blast_radius)
                  then (resource_safety_issue ResourceSafetyIssueKind.stale_approval
                        ResourceSafetyIssueSeverity.review_required
                        "fresh scoped human approval is required for high or critical risk"
                        (request.operation_request_id ∷ [])
                      ∷ [])
                  else from_some
                      (λ human_approval.
                        (validate_human_approval_for_request human_approval request))
                      human_approval)))) in
    let risk_level = risk_level_for_request request blast_radius in
    record {
      operation_request_ref = request.operation_request_id;
      target_safety_class = classify_resource_target_safety request.resource_target;
      risk_level = risk_level;
      required_human_review = (requires_human_review request blast_radius || not (is_empty issues));
      live_control_authorized = false;
      issues = issues;
      safe_next_route_set = safe_routes_for_issues issues;
    }
