-- ===== src/Operations/Safety/Approval.antt =====
-- The check of a human approval against a request, of src/langsop/operations/resource_safety.py.
use lang_sop.Operations.Safety.Records.{
  HumanApprovalEnvelope, ResourceSafetyIssue, human_approval_envelope_fields, resource_safety_issue,
}
use lang_sop.Operations.Safety.Fields.{
  human_approval_state_is_broad_invalid, human_approval_state_is_mismatched,
  human_approval_state_is_revoked, human_approval_state_is_stale, required_human_approval_field_set,
}
use lang_sop.Operations.Safety.Vocabulary.{ResourceSafetyIssueKind, ResourceSafetyIssueSeverity}
use lang_sop.Operations.Requests.Records.{OperationRequestEnvelope}
use lang_sop.Operations.Requests.Classes.{missing_field_issue}
use lang_sop.Base.{List, String, [], map, not, only_if, ◌++◌, ◌<>◌, ◌==◌, ◌||◌, ◌∷◌}
use lang_sop.Records.{absent_names}

unfoldable pub approval_issue :
    ResourceSafetyIssueKind → HumanApprovalEnvelope → String → ResourceSafetyIssue
approval_issue issue_kind approval reason =
    resource_safety_issue issue_kind ResourceSafetyIssueSeverity.refused reason
      (approval.human_approval_id ∷ [])

unfoldable pub validate_human_approval_for_request :
    HumanApprovalEnvelope → OperationRequestEnvelope → List ResourceSafetyIssue
unfolding absent_names approval_issue missing_field_issue
validate_human_approval_for_request approval request =
    map
      (λ field_name.
        resource_safety_issue ResourceSafetyIssueKind.stale_approval
          ResourceSafetyIssueSeverity.blocked
          (field_name <> " is required for human approval evidence") (field_name ∷ []))
      (absent_names (human_approval_envelope_fields approval) required_human_approval_field_set)
    ++ (only_if
          (approval.broad_approval_requested
            || (human_approval_state_is_broad_invalid approval.approval_state))
          (resource_safety_issue ResourceSafetyIssueKind.broad_standing_approval
            ResourceSafetyIssueSeverity.refused
            "broad standing approval cannot authorize operation control"
            (approval.human_approval_id ∷ []))
        ++ (only_if (human_approval_state_is_stale approval.approval_state) (
              approval_issue ResourceSafetyIssueKind.stale_approval approval
                "human approval is stale")
            ++ (only_if (human_approval_state_is_revoked approval.approval_state) (
                  approval_issue ResourceSafetyIssueKind.revoked_approval approval
                    "human approval is revoked")
                ++ (only_if (human_approval_state_is_mismatched approval.approval_state) (
                      approval_issue ResourceSafetyIssueKind.mismatched_resource_target approval
                        "human approval is mismatched")
                    ++ (only_if
                          (not (
                            approval.approved_operation_request_ref
                            == request.operation_request_id))
                          (approval_issue ResourceSafetyIssueKind.mismatched_resource_target
                            approval "approval operation request ref does not match request")
                        ++ (only_if
                              (not (approval.approved_intended_effect == request.intended_effect))
                              (approval_issue ResourceSafetyIssueKind.mismatched_intended_effect
                                approval "approval intended effect does not match request")
                            ++ (only_if
                                  (not
                                    (approval.approved_resource_target == request.resource_target))
                                  (approval_issue ResourceSafetyIssueKind.mismatched_resource_target
                                    approval "approval resource target does not match request")
                                ++ (only_if approval.live_control_authority_claimed (
                                    resource_safety_issue
                                      ResourceSafetyIssueKind.live_control_implication
                                      ResourceSafetyIssueSeverity.refused
                                      "human approval evidence cannot claim live-control authority"
                                      (approval.human_approval_id ∷ []))))))))))
