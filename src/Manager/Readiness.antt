-- ===== src/Manager/Readiness.antt =====
-- src/langsop/manager/readiness.py: the recomputation of the readiness of a cycle.
pub mod Follows
use lang_sop.Manager.Stops.{first_stop_projection, model_route_missing}
use lang_sop.Manager.Obligations.{completion_gate_for_cycle, proof_obligations_for_cycle}
use lang_sop.Manager.Records.{
  ManagerCycleInput, ManagerIssue, ManagerReadinessResult, SopFirstManagerInterruptContext,
  manager_issue,
}
use lang_sop.Manager.Fields.{no_dispatch_notice, sop_interrupt_notice}
use lang_sop.Manager.Vocabulary.{
  ManagerIssueKind, ManagerIssueSeverity, ManagerReadinessState, ManagerWorkPacketState,
  manager_issue_kind_value,
}
use lang_sop.Base.{
  Bool, List, Option, [], any, false, find?, if◌then◌else◌, is_empty, is_empty_text, none, not,
  only_if, some, true, ◌&&◌, ◌++◌, ◌<>◌, ◌∷◌,
}
use lang_sop.Text.Sets.{distinct, sorted}

abbrev pub manager_issue_severity_interrupts : ManagerIssueSeverity → Bool
manager_issue_severity_interrupts ManagerIssueSeverity.stale = true
manager_issue_severity_interrupts ManagerIssueSeverity.interrupt = true
manager_issue_severity_interrupts ManagerIssueSeverity.refused = true
manager_issue_severity_interrupts other = false

abbrev pub manager_readiness_state_is_ready_for_claim : ManagerReadinessState → Bool
manager_readiness_state_is_ready_for_claim ManagerReadinessState.ready_for_claim = true
manager_readiness_state_is_ready_for_claim other = false

-- The three local variables of the recomputation.
pub record Progress : Type 0 where
  pub issues : List ManagerIssue
  pub readiness_state : ManagerReadinessState
  pub packet_state : ManagerWorkPacketState

-- The faults of an input without source references or authority notice: the states stay ready.
unfoldable pub input_progress : ManagerCycleInput → Progress
input_progress cycle = record {
  issues =
      only_if (is_empty cycle.source_ref_set) (
        manager_issue ManagerIssueKind.missing_source_authority ManagerIssueSeverity.fault
          "source_ref_set is required before manager readiness can be trusted"
          (some "source_ref_set"))
      ++ only_if (is_empty_text cycle.authority_notice_ref) (
          manager_issue ManagerIssueKind.missing_authority_notice ManagerIssueSeverity.fault
            "authority_notice_ref is required before manager readiness can be trusted"
            (some "authority_notice_ref"));
  readiness_state = ManagerReadinessState.ready_for_claim;
  packet_state = ManagerWorkPacketState.ready_for_claim;
}

unfoldable pub stop_progress :
    Option (ManagerReadinessState × ManagerWorkPacketState × ManagerIssue) → Progress → Progress
stop_progress none p = p
stop_progress (some (readiness, packet, issue)) p = record {
  issues = p.issues ++ (issue ∷ []);
  readiness_state = readiness;
  packet_state = packet;
}

-- A bypass is looked for only while the state is ready.
unfoldable pub bypass : Bool → ManagerIssue → ManagerReadinessState → Progress → Progress
bypass found issue state p =
    if found && manager_readiness_state_is_ready_for_claim p.readiness_state
    then record {
      issues = p.issues ++ (issue ∷ []);
      readiness_state = state;
      packet_state = ManagerWorkPacketState.not_ready;
    }
    else p

abbrev pub unsatisfied : ManagerCycleInput → Bool
unsatisfied cycle = any (λ obligation. not obligation.satisfied) (proof_obligations_for_cycle cycle)

unfoldable pub readiness_progress : ManagerCycleInput → Progress
unfolding input_progress stop_progress bypass any proof_obligations_for_cycle
    completion_gate_for_cycle first_stop_projection model_route_missing
readiness_progress cycle =
    bypass (model_route_missing cycle)
      (manager_issue ManagerIssueKind.model_route_ambiguity ManagerIssueSeverity.interrupt
        "manager packets require GPT-5.3-Codex-Spark-suitable or requires deeper reasoning"
        (some "model_route"))
      ManagerReadinessState.refused_until_model_route_declared
      (bypass (unsatisfied cycle)
        (manager_issue ManagerIssueKind.proof_obligation_bypass ManagerIssueSeverity.blocked
          "proof obligations must be visible before a ready packet can claim work"
          (some "proof_obligation_ref_set"))
        ManagerReadinessState.blocked
        (bypass (not (completion_gate_for_cycle cycle).opened)
          (manager_issue ManagerIssueKind.completion_gate_bypass ManagerIssueSeverity.blocked
            "completion review gate must be visible before a ready packet can claim work"
            (some "completion_review_ref"))
          ManagerReadinessState.blocked
          (stop_progress (first_stop_projection cycle) (input_progress cycle))))

abbrev interrupts : ManagerIssue → Bool
interrupts issue = manager_issue_severity_interrupts issue.severity

abbrev context_of : ManagerCycleInput → Option ManagerIssue → Option SopFirstManagerInterruptContext
context_of cycle none = none
context_of cycle (some issue) = some (record {
  interrupt_id =
      cycle.work_ref <> (":" <> (manager_issue_kind_value issue.issue_kind <> ":interrupt"));
  interrupt_kind = issue.issue_kind;
  active_work_ref = cycle.work_ref;
  evidence_ref_set =
      sorted (distinct (cycle.source_ref_set ++ (manager_issue_kind_value issue.issue_kind ∷ [])));
  required_route_set = "SOP_first_review" ∷ "completion_review" ∷ [];
  non_authority_notice = sop_interrupt_notice;
})

unfoldable pub interrupt_context_for_cycle :
    ManagerCycleInput → List ManagerIssue → Option SopFirstManagerInterruptContext
unfolding find? sorted distinct manager_issue_kind_value
interrupt_context_for_cycle cycle issues = context_of cycle (find? interrupts issues)

unfoldable pub recompute_manager_readiness : ManagerCycleInput → ManagerReadinessResult
unfolding readiness_progress interrupt_context_for_cycle proof_obligations_for_cycle
    completion_gate_for_cycle
recompute_manager_readiness cycle =
    let p = readiness_progress cycle in
    record {
      accepted = is_empty p.issues && manager_readiness_state_is_ready_for_claim p.readiness_state;
      readiness_state = p.readiness_state;
      work_packet_state = p.packet_state;
      issues = p.issues;
      proof_obligation_set = proof_obligations_for_cycle cycle;
      completion_gate = some (completion_gate_for_cycle cycle);
      interrupt_context = interrupt_context_for_cycle cycle p.issues;
      authority_notice_set =
          only_if (not (is_empty_text cycle.authority_notice_ref)) cycle.authority_notice_ref;
      dispatch_authorized = false;
      live_effect_performed = false;
      non_authority_notice = no_dispatch_notice;
    }
