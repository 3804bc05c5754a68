-- ===== src/Manager/Stops.antt =====
-- The first reason to stop a cycle, of src/langsop/manager/readiness.py.
pub mod Unstopped
use lang_sop.Manager.Records.{ManagerCycleInput, ManagerIssue, manager_issue}
use lang_sop.Manager.Fields.{manager_model_route_is_missing}
use lang_sop.Manager.Vocabulary.{
  ManagerIssueKind, ManagerIssueSeverity, ManagerReadinessState, ManagerWorkPacketState,
  manager_freshness_state_value,
}
use lang_sop.Base.{
  Bool, List, Option, String, [], any, contains, false, if◌then◌else◌, is_empty_text, none, not,
  some, ◌&&◌, ◌==◌, ◌||◌, ◌∷◌,
}
use lang_sop.Text.{has_part, lower}

abbrev pub live_control_effect_marker_set : List String
live_control_effect_marker_set =
    "live_control" ∷ "process" ∷ "gpu" ∷ "model" ∷ "job" ∷ "credential" ∷ "network" ∷ "destructive"
    ∷ "live_machine" ∷ []

unfoldable pub model_route_missing : ManagerCycleInput → Bool
unfolding contains
model_route_missing cycle =
    ((manager_model_route_is_missing cycle.model_route)
      || (contains cycle.model_route_state ("missing" ∷ "unknown" ∷ "" ∷ [])))

unfoldable pub requests_forbidden_live_scope : ManagerCycleInput → Bool
unfolding any contains has_part lower
requests_forbidden_live_scope cycle =
    if not (contains cycle.live_authority_state ("missing" ∷ "absent" ∷ "" ∷ []))
    then false
    else let text = lower cycle.requested_effect_kind in
      any (λ marker. has_part text marker) live_control_effect_marker_set

unfoldable pub first_stop_projection :
    ManagerCycleInput → Option (ManagerReadinessState × ManagerWorkPacketState × ManagerIssue)
unfolding contains manager_freshness_state_value requests_forbidden_live_scope
first_stop_projection cycle =
    if (contains cycle.source_authority_state ("accepted_but_stale" ∷ "stale" ∷ []))
      || ((manager_freshness_state_value cycle.freshness_state) == "stale")
    then some (
      ManagerReadinessState.blocked_stale,
      ManagerWorkPacketState.not_ready,
      manager_issue ManagerIssueKind.stale_boundary_input ManagerIssueSeverity.stale
          "stale boundary input blocks ready packet projection" (some "source_authority_state"),
    )
    else if contains cycle.support_state
        ("missing_required_support" ∷ "missing" ∷ "unsupported" ∷ [])
    then some (
      ManagerReadinessState.blocked_unsupported,
      ManagerWorkPacketState.not_ready,
      manager_issue ManagerIssueKind.unsupported_requirement ManagerIssueSeverity.blocked
          "unsupported requirement blocks ready packet projection" (some "support_state"),
    )
    else if contains cycle.coordination_state ("contested_by_active_claim" ∷ "contested" ∷ [])
    then some (
      ManagerReadinessState.interrupted_contested,
      ManagerWorkPacketState.not_ready,
      manager_issue ManagerIssueKind.contested_coordination_claim ManagerIssueSeverity.interrupt
          "contested coordination claim requires SOP-first review" (some "coordination_state"),
    )
    else if not (is_empty_text cycle.carrier_context_kind)
        || (cycle.carrier_context_state == "informative_only")
    then some (
      ManagerReadinessState.context_recorded_no_promotion,
      ManagerWorkPacketState.unchanged_without_source_authority,
      manager_issue ManagerIssueKind.missing_source_authority ManagerIssueSeverity.blocked
          "carrier context may inform review but cannot open readiness alone"
          (some "carrier_context_kind"),
    )
    else if cycle.requested_effect_classification_state == "missing"
    then some (
      ManagerReadinessState.interrupted_unclassified,
      ManagerWorkPacketState.not_ready,
      manager_issue ManagerIssueKind.unclassified_authority_sensitive_record
          ManagerIssueSeverity.interrupt
          "surface action request requires classification before readiness changes"
          (some "requested_effect_classification_state"),
    )
    else if (cycle.operations_dry_run_state == "success")
        && (contains cycle.requested_promotion ("dispatch_authority" ∷ "live_control" ∷ []))
    then some (
      ManagerReadinessState.evidence_recorded,
      ManagerWorkPacketState.not_dispatched,
      manager_issue ManagerIssueKind.dry_run_to_live_control_promotion ManagerIssueSeverity.refused
          "dry-run success is evidence, not dispatch or live-control authority"
          (some "requested_promotion"),
    )
    else if not (is_empty_text cycle.human_override_state)
        && not (cycle.human_override_state == "present_fresh_scoped_revocable")
    then some (
      ManagerReadinessState.blocked,
      ManagerWorkPacketState.not_ready,
      manager_issue ManagerIssueKind.human_override_required ManagerIssueSeverity.blocked
          "human override must be present, fresh, scoped, and revocable"
          (some "human_override_state"),
    )
    else if cycle.human_override_state == "present_fresh_scoped_revocable"
    then some (
      ManagerReadinessState.contextual_override_recorded,
      ManagerWorkPacketState.bounded_by_override_scope,
      manager_issue ManagerIssueKind.missing_source_authority ManagerIssueSeverity.blocked
          "human override is contextual and bounded by its explicit scope"
          (some "human_override_state"),
    )
    else if not (is_empty_text cycle.generated_projection_state)
        && (cycle.requested_promotion == "source_authority")
    then some (
      ManagerReadinessState.source_authority_required,
      ManagerWorkPacketState.not_ready_from_projection_alone,
      manager_issue ManagerIssueKind.generated_output_authority_promotion
          ManagerIssueSeverity.refused "generated projections cannot become source authority"
          (some "requested_promotion"),
    )
    else if not (is_empty_text cycle.graph_checkpoint_state)
        && (cycle.requested_promotion == "source_authority")
    then some (
      ManagerReadinessState.blocked_until_kernel_reference_checked,
      ManagerWorkPacketState.not_ready_from_checkpoint_alone,
      manager_issue ManagerIssueKind.graph_checkpoint_authority_promotion
          ManagerIssueSeverity.refused "graph checkpoints cannot become source authority"
          (some "requested_promotion"),
    )
    else if requests_forbidden_live_scope cycle
    then some (
      ManagerReadinessState.refused_forbidden_scope,
      ManagerWorkPacketState.not_ready,
      manager_issue ManagerIssueKind.requested_forbidden_scope ManagerIssueSeverity.refused
          "live-control request is refused without separate accepted authority"
          (some "requested_effect_kind"),
    )
    else none
