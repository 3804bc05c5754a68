-- ===== src/Manager/Fields.antt =====
-- The notices and markers of src/langsop/manager/records.py, and tests on its enumerations.
use lang_sop.Manager.Vocabulary.{ManagerIssueSeverity, ManagerModelRoute, ManagerWorkPacketState}
use lang_sop.Base.{Bool, String, false, true}

abbrev pub no_dispatch_notice : String
no_dispatch_notice = "manager_output_is_record_not_dispatch"

abbrev pub no_live_effect_notice : String
no_live_effect_notice = "manager_projection_has_no_live_effect"

abbrev pub sop_interrupt_notice : String
sop_interrupt_notice = "sop_first_interrupt_context_is_review_evidence_not_authority"

abbrev pub manager_issue_severity_is_fault : ManagerIssueSeverity → Bool
manager_issue_severity_is_fault ManagerIssueSeverity.fault = true
manager_issue_severity_is_fault other = false

abbrev pub manager_issue_severity_is_interrupt : ManagerIssueSeverity → Bool
manager_issue_severity_is_interrupt ManagerIssueSeverity.interrupt = true
manager_issue_severity_is_interrupt other = false

abbrev pub manager_issue_severity_is_refused : ManagerIssueSeverity → Bool
manager_issue_severity_is_refused ManagerIssueSeverity.refused = true
manager_issue_severity_is_refused other = false

abbrev pub manager_issue_severity_is_blocked : ManagerIssueSeverity → Bool
manager_issue_severity_is_blocked ManagerIssueSeverity.blocked = true
manager_issue_severity_is_blocked other = false

abbrev pub manager_work_packet_state_is_ready_for_claim : ManagerWorkPacketState → Bool
manager_work_packet_state_is_ready_for_claim ManagerWorkPacketState.ready_for_claim = true
manager_work_packet_state_is_ready_for_claim other = false

abbrev pub manager_model_route_is_missing : ManagerModelRoute → Bool
manager_model_route_is_missing ManagerModelRoute.missing = true
manager_model_route_is_missing other = false
