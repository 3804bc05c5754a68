-- ===== src/Operations/Safety/Boundaries.antt =====
-- The issues of a request itself, of src/langsop/operations/resource_safety.py.
use lang_sop.Operations.Safety.Records.{
  BlastRadiusEnvelope, ResourceSafetyIssue, resource_safety_issue,
}
use lang_sop.Operations.Safety.Fields.{operation_freshness_state_is_fresh}
use lang_sop.Operations.Safety.Vocabulary.{ResourceSafetyIssueKind, ResourceSafetyIssueSeverity}
use lang_sop.Operations.Requests.Records.{OperationRequestEnvelope}
use lang_sop.Operations.Requests.Vocabulary.{operation_effect_class_value}
use lang_sop.Operations.Requests.Classes.{classify_intended_effect}
use lang_sop.Base.{
  List, Option, [], contains, is_empty_text, not, only_if, test_some, ◌++◌, ◌==◌, ◌||◌, ◌∷◌,
}

unfoldable pub request_safety_issues :
    OperationRequestEnvelope → Option BlastRadiusEnvelope → List ResourceSafetyIssue
unfolding classify_intended_effect contains operation_effect_class_value
request_safety_issues request blast_radius =
    only_if
      (is_empty_text request.authority_notice_ref
        || not (operation_freshness_state_is_fresh request.freshness_state))
      (resource_safety_issue ResourceSafetyIssueKind.missing_authority_notice
        ResourceSafetyIssueSeverity.critical
        "fresh authority notice is required for resource safety review"
        (request.operation_request_id ∷ []))
    ++ (only_if (request.resource_target == "credential_or_secret") (
          resource_safety_issue ResourceSafetyIssueKind.credential_boundary_unreviewed
            ResourceSafetyIssueSeverity.critical
            "credential references remain opaque and unreviewed"
            (request.operation_request_id ∷ []))
        ++ (only_if
              ((request.resource_target == "network_service")
                || (request.intended_effect == "network_exposure_mutation"))
              (resource_safety_issue ResourceSafetyIssueKind.network_boundary_unreviewed
                ResourceSafetyIssueSeverity.critical "network exposure mutation is not authorized"
                (request.operation_request_id ∷ []))
            ++ (only_if
                  ((request.resource_target == "filesystem_destructive_target")
                    || (request.intended_effect == "destructive_filesystem_action"))
                  (resource_safety_issue ResourceSafetyIssueKind.destructive_action_possible
                    ResourceSafetyIssueSeverity.critical
                    "destructive filesystem action is not authorized"
                    (request.operation_request_id ∷ []))
                ++ (only_if
                      ((operation_effect_class_value
                          (classify_intended_effect request.intended_effect))
                        == "blocked_live_effect")
                      (resource_safety_issue ResourceSafetyIssueKind.live_control_implication
                        ResourceSafetyIssueSeverity.refused
                        "live-control implication must be refused before execution paths exist"
                        (request.operation_request_id ∷ []))
                    ++ (only_if
                          (test_some
                            (λ blast_radius.
                              contains blast_radius.blast_radius_state
                                ("unknown" ∷ "uncertain" ∷ []))
                            blast_radius)
                          (resource_safety_issue ResourceSafetyIssueKind.unknown_blast_radius
                            ResourceSafetyIssueSeverity.critical
                            "uncertain blast radius requires review and blocks operation planning"
                            (request.operation_request_id ∷ []))
                        ++ (only_if (contains request.blast_radius ("unknown" ∷ "uncertain" ∷ [])) (
                            resource_safety_issue ResourceSafetyIssueKind.unknown_blast_radius
                              ResourceSafetyIssueSeverity.critical
                              "request blast radius is unknown or uncertain"
                              (request.operation_request_id ∷ []))))))))
