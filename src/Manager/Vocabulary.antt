-- ===== src/Manager/Vocabulary.antt =====
-- The enumerations of src/langsop/manager/records.py.
use lang_sop.Base.{String}

pub data ManagerAuthorityClass : Type 0 where
  source_authority manager_planning_record accepted_execution_evidence : ManagerAuthorityClass
  coordination_record operations_dry_run_record generated_projection : ManagerAuthorityClass
  graph_checkpoint carrier_context human_override_context unknown : ManagerAuthorityClass

unfoldable pub manager_authority_class_value : ManagerAuthorityClass → String
manager_authority_class_value source_authority = "source_authority"
manager_authority_class_value manager_planning_record = "manager_planning_record"
manager_authority_class_value accepted_execution_evidence = "accepted_execution_evidence"
manager_authority_class_value coordination_record = "coordination_record"
manager_authority_class_value operations_dry_run_record = "operations_dry_run_record"
manager_authority_class_value generated_projection = "generated_projection"
manager_authority_class_value graph_checkpoint = "graph_checkpoint"
manager_authority_class_value carrier_context = "carrier_context"
manager_authority_class_value human_override_context = "human_override_context"
manager_authority_class_value unknown = "unknown"

pub data ManagerFreshnessState : Type 0 where
  fresh stale unknown contested blocked interrupted faulted : ManagerFreshnessState
  pending_review : ManagerFreshnessState

unfoldable pub manager_freshness_state_value : ManagerFreshnessState → String
manager_freshness_state_value fresh = "fresh"
manager_freshness_state_value stale = "stale"
manager_freshness_state_value unknown = "unknown"
manager_freshness_state_value contested = "contested"
manager_freshness_state_value blocked = "blocked"
manager_freshness_state_value interrupted = "interrupted"
manager_freshness_state_value faulted = "faulted"
manager_freshness_state_value pending_review = "pending_review"

pub data ManagerReadinessState : Type 0 where
  ready_for_claim blocked_stale blocked_unsupported interrupted_contested : ManagerReadinessState
  context_recorded_no_promotion interrupted_unclassified : ManagerReadinessState
  evidence_recorded contextual_override_recorded : ManagerReadinessState
  source_authority_required blocked_until_kernel_reference_checked : ManagerReadinessState
  refused_forbidden_scope refused_until_model_route_declared blocked : ManagerReadinessState
  not_ready : ManagerReadinessState

unfoldable pub manager_readiness_state_value : ManagerReadinessState → String
manager_readiness_state_value ready_for_claim = "ready_for_claim"
manager_readiness_state_value blocked_stale = "blocked_stale"
manager_readiness_state_value blocked_unsupported = "blocked_unsupported"
manager_readiness_state_value interrupted_contested = "interrupted_contested"
manager_readiness_state_value context_recorded_no_promotion = "context_recorded_no_promotion"
manager_readiness_state_value interrupted_unclassified = "interrupted_unclassified"
manager_readiness_state_value evidence_recorded = "evidence_recorded"
manager_readiness_state_value contextual_override_recorded = "contextual_override_recorded"
manager_readiness_state_value source_authority_required = "source_authority_required"
manager_readiness_state_value blocked_until_kernel_reference_checked =
    "blocked_until_kernel_reference_checked"
manager_readiness_state_value refused_forbidden_scope = "refused_forbidden_scope"
manager_readiness_state_value refused_until_model_route_declared =
    "refused_until_model_route_declared"
manager_readiness_state_value blocked = "blocked"
manager_readiness_state_value not_ready = "not_ready"

pub data ManagerWorkPacketState : Type 0 where
  ready_for_claim not_ready not_dispatched : ManagerWorkPacketState
  unchanged_without_source_authority bounded_by_override_scope : ManagerWorkPacketState
  not_ready_from_projection_alone not_ready_from_checkpoint_alone : ManagerWorkPacketState

unfoldable pub manager_work_packet_state_value : ManagerWorkPacketState → String
manager_work_packet_state_value ready_for_claim = "ready_for_claim"
manager_work_packet_state_value not_ready = "not_ready"
manager_work_packet_state_value not_dispatched = "not_dispatched"
manager_work_packet_state_value unchanged_without_source_authority =
    "unchanged_without_source_authority"
manager_work_packet_state_value bounded_by_override_scope = "bounded_by_override_scope"
manager_work_packet_state_value not_ready_from_projection_alone = "not_ready_from_projection_alone"
manager_work_packet_state_value not_ready_from_checkpoint_alone = "not_ready_from_checkpoint_alone"

pub data ManagerModelRoute : Type 0 where
  gpt_5_3_codex_spark_suitable requires_deeper_reasoning missing : ManagerModelRoute

unfoldable pub manager_model_route_value : ManagerModelRoute → String
manager_model_route_value gpt_5_3_codex_spark_suitable = "GPT-5.3-Codex-Spark-suitable"
manager_model_route_value requires_deeper_reasoning = "requires deeper reasoning"
manager_model_route_value missing = "missing"

pub data ManagerIssueKind : Type 0 where
  missing_field missing_source_authority missing_authority_notice : ManagerIssueKind
  stale_boundary_input unsupported_requirement contested_coordination_claim : ManagerIssueKind
  unclassified_authority_sensitive_record generated_output_authority_promotion : ManagerIssueKind
  graph_checkpoint_authority_promotion dry_run_to_live_control_promotion : ManagerIssueKind
  human_override_required requested_forbidden_scope model_route_ambiguity : ManagerIssueKind
  completion_gate_bypass proof_obligation_bypass dispatch_requested : ManagerIssueKind
  live_effect_requested : ManagerIssueKind

unfoldable pub manager_issue_kind_value : ManagerIssueKind → String
manager_issue_kind_value missing_field = "missing_field"
manager_issue_kind_value missing_source_authority = "missing_source_authority"
manager_issue_kind_value missing_authority_notice = "missing_authority_notice"
manager_issue_kind_value stale_boundary_input = "stale_boundary_input"
manager_issue_kind_value unsupported_requirement = "unsupported_requirement"
manager_issue_kind_value contested_coordination_claim = "contested_coordination_claim"
manager_issue_kind_value unclassified_authority_sensitive_record =
    "unclassified_authority_sensitive_record"
manager_issue_kind_value generated_output_authority_promotion =
    "generated_output_authority_promotion"
manager_issue_kind_value graph_checkpoint_authority_promotion =
    "graph_checkpoint_authority_promotion"
manager_issue_kind_value dry_run_to_live_control_promotion = "dry_run_to_live_control_promotion"
manager_issue_kind_value human_override_required = "human_override_required"
manager_issue_kind_value requested_forbidden_scope = "requested_forbidden_scope"
manager_issue_kind_value model_route_ambiguity = "model_route_ambiguity"
manager_issue_kind_value completion_gate_bypass = "completion_gate_bypass"
manager_issue_kind_value proof_obligation_bypass = "proof_obligation_bypass"
manager_issue_kind_value dispatch_requested = "dispatch_requested"
manager_issue_kind_value live_effect_requested = "live_effect_requested"

pub data ManagerIssueSeverity : Type 0 where
  blocked stale fault interrupt refused : ManagerIssueSeverity

unfoldable pub manager_issue_severity_value : ManagerIssueSeverity → String
manager_issue_severity_value blocked = "blocked"
manager_issue_severity_value stale = "stale"
manager_issue_severity_value fault = "fault"
manager_issue_severity_value interrupt = "interrupt"
manager_issue_severity_value refused = "refused"
