-- ===== src/Operations/Safety/Evidence.antt =====
-- The checks of a blast radius and of a rollback route, of src/langsop/operations/resource_safety.py.
use lang_sop.Operations.Safety.Records.{
  BlastRadiusEnvelope, ResourceSafetyIssue, RollbackAbortRouteEnvelope,
  blast_radius_envelope_fields, resource_safety_issue, rollback_abort_route_envelope_fields,
}
use lang_sop.Operations.Safety.Fields.{
  required_blast_radius_field_set, required_rollback_route_field_set,
}
use lang_sop.Operations.Safety.Vocabulary.{ResourceSafetyIssueKind, ResourceSafetyIssueSeverity}
use lang_sop.Operations.Requests.Classes.{missing_field_issue}
use lang_sop.Base.{List, [], contains, is_empty, map, not, only_if, ◌++◌, ◌<>◌, ◌==◌, ◌∷◌}
use lang_sop.Records.{absent_names}

unfoldable pub validate_blast_radius : BlastRadiusEnvelope → List ResourceSafetyIssue
unfolding absent_names contains missing_field_issue
validate_blast_radius blast_radius =
    map
      (λ field_name.
        resource_safety_issue ResourceSafetyIssueKind.missing_blast_radius
          ResourceSafetyIssueSeverity.blocked
          (field_name <> " is required for blast-radius evidence") (field_name ∷ []))
      (absent_names (blast_radius_envelope_fields blast_radius) required_blast_radius_field_set)
    ++ (only_if (contains blast_radius.blast_radius_state ("unknown" ∷ "uncertain" ∷ [])) (
          resource_safety_issue ResourceSafetyIssueKind.unknown_blast_radius
            ResourceSafetyIssueSeverity.critical
            "unknown or uncertain blast radius blocks operation planning"
            (blast_radius.rollback_or_abort_route_ref ∷ []))
        ++ (only_if (is_empty blast_radius.monitoring_signal_set) (
            resource_safety_issue ResourceSafetyIssueKind.monitoring_signal_missing
              ResourceSafetyIssueSeverity.blocked
              "monitoring signals are required for resource safety review"
              (blast_radius.rollback_or_abort_route_ref ∷ []))))

unfoldable pub validate_rollback_abort_route : RollbackAbortRouteEnvelope → List ResourceSafetyIssue
unfolding absent_names missing_field_issue
validate_rollback_abort_route route =
    map
      (λ field_name.
        resource_safety_issue ResourceSafetyIssueKind.missing_rollback_or_abort_route
          ResourceSafetyIssueSeverity.blocked
          (field_name <> " is required for rollback or abort route evidence") (field_name ∷ []))
      (absent_names (rollback_abort_route_envelope_fields route) required_rollback_route_field_set)
    ++ (only_if (not (route.route_state == "fresh")) (
        resource_safety_issue ResourceSafetyIssueKind.missing_rollback_or_abort_route
          ResourceSafetyIssueSeverity.blocked "rollback or abort route must be fresh"
          (route.rollback_or_abort_route_id ∷ [])))
