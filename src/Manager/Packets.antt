-- ===== src/Manager/Packets.antt =====
-- src/langsop/manager/packets.py: the work packet of a cycle.
pub mod Claimable
use lang_sop.Manager.Readiness.{recompute_manager_readiness}
use lang_sop.Manager.Records.{ManagerCycleInput, WorkPacketCandidate, ready_for_claim}
use lang_sop.Manager.Fields.{
  manager_model_route_is_missing, manager_work_packet_state_is_ready_for_claim,
}
use lang_sop.Base.{Bool, false, not, ◌&&◌, ◌<>◌}

unfoldable pub build_manager_work_packet_candidate : ManagerCycleInput → WorkPacketCandidate
unfolding recompute_manager_readiness
build_manager_work_packet_candidate cycle =
    let readiness = recompute_manager_readiness cycle in
    record {
      packet_id = cycle.work_ref <> ":manager_packet";
      work_ref = cycle.work_ref;
      readiness_state = readiness.readiness_state;
      packet_state = readiness.work_packet_state;
      model_route = cycle.model_route;
      proof_obligation_set = readiness.proof_obligation_set;
      completion_gate = readiness.completion_gate;
      issue_set = readiness.issues;
      source_ref_set = cycle.source_ref_set;
      authority_notice_ref = cycle.authority_notice_ref;
      dispatch_authorized = false;
      live_effect_performed = false;
      non_authority_notice = readiness.non_authority_notice;
    }

unfoldable pub packet_is_claimable : WorkPacketCandidate → Bool
unfolding ready_for_claim
packet_is_claimable candidate =
    ((manager_work_packet_state_is_ready_for_claim candidate.packet_state)
      && (not (manager_model_route_is_missing candidate.model_route) && ready_for_claim candidate))
