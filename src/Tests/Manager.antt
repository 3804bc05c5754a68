-- ===== src/Tests/Manager.antt =====
-- The theorems of cycles and their packets at small cycles.
use lang_sop.Base.{
  String, List, ◌≡◌, refl, ◌↔◌, true, false, not, ◌&&◌, [], ◌∷◌, is_empty, is_empty_text,
}
use lang_sop.Manager.Vocabulary.{
  ManagerAuthorityClass, ManagerFreshnessState, ManagerIssueSeverity, ManagerModelRoute,
}
use lang_sop.Manager.Records.{ManagerCycleInput, has_fault}
use lang_sop.Manager.Readiness.{recompute_manager_readiness}
use lang_sop.Manager.Packets.{build_manager_work_packet_candidate, packet_is_claimable}
use lang_sop.Manager.Faults.{manager_fault_records_from_readiness, safe_next_route_for_fault}
use lang_sop.Manager.Faults.Vocabulary.{ManagerFaultKind}
use lang_sop.Manager.Faults.Recorded.{IsRecorded, manager_fault_records-IsRecorded}
use lang_sop.Manager.Authority.{accepted, validate_manager_authority_classification}
use lang_sop.Manager.Authority.Promotion.{IsConfined, validate_manager_authority-IsConfined}
use lang_sop.Manager.Packets.Claimable.{
  IsClaimable, packet_is_claimable_iff, recompute_manager_readiness-accepted,
}

-- A cycle without source references and without an authority notice.
abbrev unsourced_cycle : ManagerCycleInput
unsourced_cycle = record {
  cycle_id = "cycle-1";
  work_ref = "work-1";
  source_ref_set = [];
  authority_notice_ref = "";
  source_authority_state = "accepted_and_fresh";
  support_state = "supported";
  coordination_state = "clear";
  operations_dry_run_state = "";
  carrier_context_kind = "";
  carrier_context_state = "";
  surface_kind = "";
  requested_effect_classification_state = "classified";
  requested_effect_kind = "";
  requested_promotion = "";
  live_authority_state = "";
  human_override_state = "";
  override_scope = "";
  risk_context_state = "";
  revocation_route_state = "";
  generated_projection_state = "";
  graph_checkpoint_state = "";
  kernel_reference_state = "";
  model_route = ManagerModelRoute.requires_deeper_reasoning;
  model_route_state = "declared";
  completion_review_ref = "review-1";
  proof_obligation_ref_set = [];
  freshness_state = ManagerFreshnessState.fresh;
  authority_class = ManagerAuthorityClass.manager_planning_record;
}

abbrev sourced_cycle : ManagerCycleInput
sourced_cycle = record {
  cycle_id = "cycle-1";
  work_ref = "work-1";
  source_ref_set = "source-1" ∷ [];
  authority_notice_ref = "notice-1";
  source_authority_state = "accepted_and_fresh";
  support_state = "supported";
  coordination_state = "clear";
  operations_dry_run_state = "";
  carrier_context_kind = "";
  carrier_context_state = "";
  surface_kind = "";
  requested_effect_classification_state = "classified";
  requested_effect_kind = "";
  requested_promotion = "";
  live_authority_state = "";
  human_override_state = "";
  override_scope = "";
  risk_context_state = "";
  revocation_route_state = "";
  generated_projection_state = "";
  graph_checkpoint_state = "";
  kernel_reference_state = "";
  model_route = ManagerModelRoute.requires_deeper_reasoning;
  model_route_state = "declared";
  completion_review_ref = "review-1";
  proof_obligation_ref_set = [];
  freshness_state = ManagerFreshnessState.fresh;
  authority_class = ManagerAuthorityClass.manager_planning_record;
}

sourced_cycle_is_accepted : (recompute_manager_readiness sourced_cycle).accepted ≡ true
unfolding recompute_manager_readiness
sourced_cycle_is_accepted = refl

unsourced_cycle_is_a_fault : has_fault (recompute_manager_readiness unsourced_cycle) ≡ true
unfolding recompute_manager_readiness has_fault
unsourced_cycle_is_a_fault = refl

unsourced_packet_is_claimable :
    packet_is_claimable (build_manager_work_packet_candidate unsourced_cycle) ≡ true
unfolding packet_is_claimable build_manager_work_packet_candidate
unsourced_packet_is_claimable = refl

packet_is_claimable_iff_example :
    (packet_is_claimable (build_manager_work_packet_candidate unsourced_cycle) ≡ true)
    ↔ IsClaimable unsourced_cycle
packet_is_claimable_iff_example = packet_is_claimable_iff unsourced_cycle

recompute_manager_readiness-accepted_example :
    (recompute_manager_readiness unsourced_cycle).accepted ≡ (
      packet_is_claimable (build_manager_work_packet_candidate unsourced_cycle)
      && (not (is_empty unsourced_cycle.source_ref_set)
          && not (is_empty_text unsourced_cycle.authority_notice_ref)))
recompute_manager_readiness-accepted_example = recompute_manager_readiness-accepted unsourced_cycle

work_is_named : is_empty_text "work-1" ≡ false
work_is_named = refl

abbrev evidence_given : List String
evidence_given = "evidence-1" ∷ []

evidence_is_given : is_empty evidence_given ≡ false
evidence_is_given = refl

manager_fault_records-IsRecorded_example :
    IsRecorded (recompute_manager_readiness unsourced_cycle).issues (
      manager_fault_records_from_readiness
        (recompute_manager_readiness unsourced_cycle)
        "work-1"
        evidence_given)
manager_fault_records-IsRecorded_example =
    manager_fault_records-IsRecorded "work-1" evidence_given work_is_named evidence_is_given
      (recompute_manager_readiness unsourced_cycle)

-- The severity is compared by its `str`, which is no value.
interrupt_is_not_routed :
    safe_next_route_for_fault ManagerFaultKind.contested_coordination_claim
      ManagerIssueSeverity.interrupt
    ≡ "SOP_first_review"
unfolding safe_next_route_for_fault
interrupt_is_not_routed = refl

report_is_not_promoted :
    accepted (
      validate_manager_authority_classification "record-1" "generated_report" "source_authority"
        false false false)
    ≡ false
unfolding accepted validate_manager_authority_classification
report_is_not_promoted = refl

validate_manager_authority-IsConfined_example :
    (accepted (
        validate_manager_authority_classification "record-1" "completion_review" "source_authority"
          true false false)
      ≡ true)
    ↔ IsConfined "record-1" "completion_review" "source_authority" true false false
validate_manager_authority-IsConfined_example =
    validate_manager_authority-IsConfined "record-1" "completion_review" "source_authority" true
      false false
