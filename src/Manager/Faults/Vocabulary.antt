-- ===== src/Manager/Faults/Vocabulary.antt =====
-- The enumerations of src/langsop/manager/faults.py.
use lang_sop.Base.{Bool, true, false, String, List, [], ◌∷◌}
use lang_sop.Manager.Vocabulary.{ManagerIssueSeverity}

pub data ManagerFaultKind : Type 0 where
  stale_boundary_input : ManagerFaultKind
  unsupported_requirement : ManagerFaultKind
  contested_coordination_claim : ManagerFaultKind
  unclassified_authority_sensitive_record : ManagerFaultKind
  generated_output_authority_promotion : ManagerFaultKind
  graph_checkpoint_authority_promotion : ManagerFaultKind
  dry_run_to_live_control_promotion : ManagerFaultKind
  human_override_required : ManagerFaultKind
  requested_forbidden_scope : ManagerFaultKind
  model_route_ambiguity : ManagerFaultKind
  completion_gate_bypass : ManagerFaultKind
  proof_obligation_bypass : ManagerFaultKind
  dispatch_requested : ManagerFaultKind
  live_effect_requested : ManagerFaultKind
  unknown_manager_fault : ManagerFaultKind

unfoldable pub manager_fault_kind_value : ManagerFaultKind → String
manager_fault_kind_value stale_boundary_input = "stale_boundary_input"
manager_fault_kind_value unsupported_requirement = "unsupported_requirement"
manager_fault_kind_value contested_coordination_claim = "contested_coordination_claim"
manager_fault_kind_value unclassified_authority_sensitive_record =
    "unclassified_authority_sensitive_record"
manager_fault_kind_value generated_output_authority_promotion =
    "generated_output_authority_promotion"
manager_fault_kind_value graph_checkpoint_authority_promotion =
    "graph_checkpoint_authority_promotion"
manager_fault_kind_value dry_run_to_live_control_promotion = "dry_run_to_live_control_promotion"
manager_fault_kind_value human_override_required = "human_override_required"
manager_fault_kind_value requested_forbidden_scope = "requested_forbidden_scope"
manager_fault_kind_value model_route_ambiguity = "model_route_ambiguity"
manager_fault_kind_value completion_gate_bypass = "completion_gate_bypass"
manager_fault_kind_value proof_obligation_bypass = "proof_obligation_bypass"
manager_fault_kind_value dispatch_requested = "dispatch_requested"
manager_fault_kind_value live_effect_requested = "live_effect_requested"
manager_fault_kind_value unknown_manager_fault = "unknown_manager_fault"

abbrev pub manager_fault_kind_members : List ManagerFaultKind
manager_fault_kind_members =
    ManagerFaultKind.stale_boundary_input ∷ ManagerFaultKind.unsupported_requirement
    ∷ ManagerFaultKind.contested_coordination_claim
    ∷ ManagerFaultKind.unclassified_authority_sensitive_record
    ∷ ManagerFaultKind.generated_output_authority_promotion
    ∷ ManagerFaultKind.graph_checkpoint_authority_promotion
    ∷ ManagerFaultKind.dry_run_to_live_control_promotion ∷ ManagerFaultKind.human_override_required
    ∷ ManagerFaultKind.requested_forbidden_scope ∷ ManagerFaultKind.model_route_ambiguity
    ∷ ManagerFaultKind.completion_gate_bypass ∷ ManagerFaultKind.proof_obligation_bypass
    ∷ ManagerFaultKind.dispatch_requested ∷ ManagerFaultKind.live_effect_requested
    ∷ ManagerFaultKind.unknown_manager_fault ∷ []

pub data ManagerFaultSeverity : Type 0 where
  blocked stale fault interrupt refused : ManagerFaultSeverity

unfoldable pub manager_fault_severity_value : ManagerFaultSeverity → String
manager_fault_severity_value blocked = "blocked"
manager_fault_severity_value stale = "stale"
manager_fault_severity_value fault = "fault"
manager_fault_severity_value interrupt = "interrupt"
manager_fault_severity_value refused = "refused"

abbrev pub manager_fault_severity_members : List ManagerFaultSeverity
manager_fault_severity_members =
    ManagerFaultSeverity.blocked ∷ ManagerFaultSeverity.stale ∷ ManagerFaultSeverity.fault
    ∷ ManagerFaultSeverity.interrupt ∷ ManagerFaultSeverity.refused ∷ []

-- `str(severity)` of a member of an enumeration that is a `str` too is the name of the class and of the
-- member, not the value.
unfoldable pub manager_issue_severity_str : ManagerIssueSeverity → String
manager_issue_severity_str ManagerIssueSeverity.blocked = "ManagerIssueSeverity.BLOCKED"
manager_issue_severity_str ManagerIssueSeverity.stale = "ManagerIssueSeverity.STALE"
manager_issue_severity_str ManagerIssueSeverity.fault = "ManagerIssueSeverity.FAULT"
manager_issue_severity_str ManagerIssueSeverity.interrupt = "ManagerIssueSeverity.INTERRUPT"
manager_issue_severity_str ManagerIssueSeverity.refused = "ManagerIssueSeverity.REFUSED"

abbrev pub needs_refresh : ManagerFaultKind → Bool
needs_refresh ManagerFaultKind.stale_boundary_input = true
needs_refresh ManagerFaultKind.completion_gate_bypass = true
needs_refresh ManagerFaultKind.proof_obligation_bypass = true
needs_refresh other = false

abbrev pub needs_classification : ManagerFaultKind → Bool
needs_classification ManagerFaultKind.unclassified_authority_sensitive_record = true
needs_classification ManagerFaultKind.model_route_ambiguity = true
needs_classification other = false

abbrev pub needs_refusal : ManagerFaultKind → Bool
needs_refusal ManagerFaultKind.generated_output_authority_promotion = true
needs_refusal ManagerFaultKind.graph_checkpoint_authority_promotion = true
needs_refusal ManagerFaultKind.dry_run_to_live_control_promotion = true
needs_refusal ManagerFaultKind.requested_forbidden_scope = true
needs_refusal ManagerFaultKind.dispatch_requested = true
needs_refusal ManagerFaultKind.live_effect_requested = true
needs_refusal other = false
