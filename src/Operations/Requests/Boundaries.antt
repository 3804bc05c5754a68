-- ===== src/Operations/Requests/Boundaries.antt =====
-- The boundaries that a request may touch, of src/langsop/operations/requests.py.
use lang_sop.Operations.Requests.Records.{
  OperationRequestEnvelope, OperationRequestValidationIssue, operation_request_validation_issue,
}
use lang_sop.Operations.Requests.Vocabulary.{
  OperationRequestIssueKind, OperationRequestIssueSeverity,
}
use lang_sop.Base.{
  List, [], contains, if◌then◌else◌, is_empty, not, only_if, some, ◌++◌, ◌==◌, ◌||◌, ◌∷◌,
}
use lang_sop.Text.Sets.{distinct, intersection}

unfoldable pub target_specific_issues :
    OperationRequestEnvelope → List OperationRequestValidationIssue
target_specific_issues envelope =
    only_if
      ((envelope.resource_target == "credential_or_secret")
        || (envelope.intended_effect == "credential_access_or_mutation"))
      (operation_request_validation_issue OperationRequestIssueKind.credential_boundary_touched
        OperationRequestIssueSeverity.refused
        "credential targets remain opaque references and cannot be accessed"
        (some "resource_target"))
    ++ (only_if
          ((envelope.resource_target == "network_service")
            || (envelope.intended_effect == "network_exposure_mutation"))
          (operation_request_validation_issue OperationRequestIssueKind.network_exposure_requested
            OperationRequestIssueSeverity.refused "network exposure mutation is not authorized"
            (some "resource_target"))
        ++ (only_if
            ((envelope.resource_target == "filesystem_destructive_target")
              || (envelope.intended_effect == "destructive_filesystem_action"))
            (operation_request_validation_issue
              OperationRequestIssueKind.destructive_action_possible
              OperationRequestIssueSeverity.refused
              "destructive filesystem action is not authorized" (some "resource_target"))))

unfoldable pub authority_promotion_issues :
    OperationRequestEnvelope → List OperationRequestValidationIssue
unfolding contains distinct intersection
authority_promotion_issues envelope =
    let cited = distinct envelope.cited_authority_set in
    (if (contains envelope.intended_effect ("job_dispatch" ∷ "job_cancellation" ∷ []))
      then only_if (contains "coordination_claim" cited) (
          operation_request_validation_issue
            OperationRequestIssueKind.coordination_claim_promoted_to_dispatch
            OperationRequestIssueSeverity.refused
            "coordination claims cannot become dispatch authority" (some "cited_authority_set"))
        ++ only_if (contains "mailbox_carrier_context" cited) (
            operation_request_validation_issue
              OperationRequestIssueKind.mailbox_carrier_promoted_to_dispatch
              OperationRequestIssueSeverity.refused
              "mailbox carriers cannot become dispatch authority" (some "cited_authority_set"))
        ++ only_if
            ((contains "successful_dry_run_record" cited) || (contains "dry_run_result" cited))
            (operation_request_validation_issue OperationRequestIssueKind.live_effect_requested
              OperationRequestIssueSeverity.refused
              "dry-run success cannot become dispatch permission" (some "cited_authority_set"))
      else [])
    ++ (only_if
        (envelope.requested_authority_promotion
          || not (is_empty (intersection cited ("generated_projection" ∷ "fixture_success" ∷ []))))
        (operation_request_validation_issue
          OperationRequestIssueKind.generated_projection_promoted_to_authority
          OperationRequestIssueSeverity.refused
          "generated projections and fixture success cannot become source or live-control authority"
          (some "cited_authority_set")))
