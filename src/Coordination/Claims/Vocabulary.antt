-- ===== src/Coordination/Claims/Vocabulary.antt =====
-- The enumerations and action sets of src/langsop/coordination/claims.py.
use lang_sop.Base.{Bool, List, String, [], false, true, ◌∷◌}

pub data ClaimFreshnessState : Type 0 where
  fresh stale unknown contested interrupted blocked faulted pending_review : ClaimFreshnessState

unfoldable pub claim_freshness_state_value : ClaimFreshnessState → String
claim_freshness_state_value fresh = "fresh"
claim_freshness_state_value stale = "stale"
claim_freshness_state_value unknown = "unknown"
claim_freshness_state_value contested = "contested"
claim_freshness_state_value interrupted = "interrupted"
claim_freshness_state_value blocked = "blocked"
claim_freshness_state_value faulted = "faulted"
claim_freshness_state_value pending_review = "pending_review"

pub data ClaimProjectionStatus : Type 0 where
  accepted blocked contested stale interrupted faulted pending_review : ClaimProjectionStatus
  refused : ClaimProjectionStatus

unfoldable pub claim_projection_status_value : ClaimProjectionStatus → String
claim_projection_status_value accepted = "accepted"
claim_projection_status_value blocked = "blocked"
claim_projection_status_value contested = "contested"
claim_projection_status_value stale = "stale"
claim_projection_status_value interrupted = "interrupted"
claim_projection_status_value faulted = "faulted"
claim_projection_status_value pending_review = "pending_review"
claim_projection_status_value refused = "refused"

pub data ClaimCompatibilityRelation : Type 0 where
  same_claim non_overlapping_write_scope read_only_overlap : ClaimCompatibilityRelation
  overlapping_write_scope identical_write_scope : ClaimCompatibilityRelation
  ambiguous_scope_relation : ClaimCompatibilityRelation

unfoldable pub claim_compatibility_relation_value : ClaimCompatibilityRelation → String
claim_compatibility_relation_value same_claim = "same_claim"
claim_compatibility_relation_value non_overlapping_write_scope = "non_overlapping_write_scope"
claim_compatibility_relation_value read_only_overlap = "read_only_overlap"
claim_compatibility_relation_value overlapping_write_scope = "overlapping_write_scope"
claim_compatibility_relation_value identical_write_scope = "identical_write_scope"
claim_compatibility_relation_value ambiguous_scope_relation = "ambiguous_scope_relation"

pub data WorkBoundaryStatus : Type 0 where
  dependency_closed compatible_parallel blocked stale contested interrupted : WorkBoundaryStatus
  faulted pending_review refused : WorkBoundaryStatus

unfoldable pub work_boundary_status_value : WorkBoundaryStatus → String
work_boundary_status_value dependency_closed = "dependency_closed"
work_boundary_status_value compatible_parallel = "compatible_parallel"
work_boundary_status_value blocked = "blocked"
work_boundary_status_value stale = "stale"
work_boundary_status_value contested = "contested"
work_boundary_status_value interrupted = "interrupted"
work_boundary_status_value faulted = "faulted"
work_boundary_status_value pending_review = "pending_review"
work_boundary_status_value refused = "refused"

pub data ClaimIssueKind : Type 0 where
  missing_field missing_authority_basis missing_authority_notice : ClaimIssueKind
  missing_forbidden_action ready_with_stop_evidence ready_with_unfresh_state : ClaimIssueKind
  identity_collapse generated_authority source_mutation_requested : ClaimIssueKind
  mailbox_io_requested dispatch_requested live_control_requested : ClaimIssueKind

unfoldable pub claim_issue_kind_value : ClaimIssueKind → String
claim_issue_kind_value missing_field = "missing_field"
claim_issue_kind_value missing_authority_basis = "missing_authority_basis"
claim_issue_kind_value missing_authority_notice = "missing_authority_notice"
claim_issue_kind_value missing_forbidden_action = "missing_forbidden_action_set"
claim_issue_kind_value ready_with_stop_evidence = "ready_with_stop_evidence"
claim_issue_kind_value ready_with_unfresh_state = "ready_with_unfresh_state"
claim_issue_kind_value identity_collapse = "identity_collapse"
claim_issue_kind_value generated_authority = "generated_authority"
claim_issue_kind_value source_mutation_requested = "source_authority_mutation_requested"
claim_issue_kind_value mailbox_io_requested = "mailbox_io_requested"
claim_issue_kind_value dispatch_requested = "agent_dispatch_requested"
claim_issue_kind_value live_control_requested = "live_machine_control_requested"

pub data ClaimIssueSeverity : Type 0 where
  blocked stale fault interrupt refused : ClaimIssueSeverity

unfoldable pub claim_issue_severity_value : ClaimIssueSeverity → String
claim_issue_severity_value blocked = "blocked"
claim_issue_severity_value stale = "stale"
claim_issue_severity_value fault = "fault"
claim_issue_severity_value interrupt = "interrupt"
claim_issue_severity_value refused = "refused"

abbrev pub required_claim_identity_field_set : List String
required_claim_identity_field_set =
    "claim_id" ∷ "claimant_ref" ∷ "conversation_ref" ∷ "work_packet_ref" ∷ "scope_subject_ref_set"
    ∷ "authority_basis_ref_set" ∷ "authority_notice_ref" ∷ "freshness_state"
    ∷ "permitted_action_set" ∷ "forbidden_action_set" ∷ "trust_limit" ∷ []

abbrev pub required_work_boundary_field_set : List String
required_work_boundary_field_set =
    "projection_id" ∷ "claim_ref" ∷ "scope_subject_ref_set" ∷ "authority_basis_ref_set"
    ∷ "authority_notice_ref" ∷ "freshness_state" ∷ "boundary_status" ∷ "compatibility_relation"
    ∷ "required_route_set" ∷ "forbidden_action_set" ∷ []

abbrev pub direct_source_mutation_action_set : List String
direct_source_mutation_action_set =
    "direct_source_authority_write" ∷ "direct_source_write" ∷ "source_authority_mutation"
    ∷ "source_mutation" ∷ "direct_completion_acceptance" ∷ "completion_acceptance"
    ∷ "direct_claim_acceptance" ∷ "claim_state_transition" ∷ []

abbrev pub mailbox_io_action_set : List String
mailbox_io_action_set =
    "mailbox_file_read" ∷ "mailbox_file_write" ∷ "mailbox_file_create" ∷ "platform_mailbox_mutation"
    ∷ "read_cursor_persist" ∷ "watch_mailbox_directory" ∷ []

abbrev pub dispatch_action_set : List String
dispatch_action_set =
    "agent_dispatch" ∷ "direct_agent_dispatch" ∷ "assign_agent" ∷ "start_agent" ∷ "dispatch_work"
    ∷ []

abbrev pub live_control_action_set : List String
live_control_action_set =
    "operations_control" ∷ "live_machine_control" ∷ "process_control" ∷ "gpu_control"
    ∷ "model_runtime_control" ∷ []

abbrev pub in_stop_boundary_status_set : WorkBoundaryStatus → Bool
in_stop_boundary_status_set WorkBoundaryStatus.blocked = true
in_stop_boundary_status_set WorkBoundaryStatus.stale = true
in_stop_boundary_status_set WorkBoundaryStatus.contested = true
in_stop_boundary_status_set WorkBoundaryStatus.interrupted = true
in_stop_boundary_status_set WorkBoundaryStatus.faulted = true
in_stop_boundary_status_set WorkBoundaryStatus.pending_review = true
in_stop_boundary_status_set WorkBoundaryStatus.refused = true
in_stop_boundary_status_set other = false

abbrev pub claim_freshness_state_is_contested : ClaimFreshnessState → Bool
claim_freshness_state_is_contested ClaimFreshnessState.contested = true
claim_freshness_state_is_contested other = false

abbrev pub claim_freshness_state_is_stale : ClaimFreshnessState → Bool
claim_freshness_state_is_stale ClaimFreshnessState.stale = true
claim_freshness_state_is_stale other = false

abbrev pub claim_freshness_state_is_interrupted : ClaimFreshnessState → Bool
claim_freshness_state_is_interrupted ClaimFreshnessState.interrupted = true
claim_freshness_state_is_interrupted other = false

abbrev pub claim_freshness_state_is_faulted : ClaimFreshnessState → Bool
claim_freshness_state_is_faulted ClaimFreshnessState.faulted = true
claim_freshness_state_is_faulted other = false

abbrev pub claim_freshness_state_is_fresh : ClaimFreshnessState → Bool
claim_freshness_state_is_fresh ClaimFreshnessState.fresh = true
claim_freshness_state_is_fresh other = false

abbrev pub claim_issue_severity_is_fault : ClaimIssueSeverity → Bool
claim_issue_severity_is_fault ClaimIssueSeverity.fault = true
claim_issue_severity_is_fault other = false

abbrev pub claim_issue_severity_is_blocked : ClaimIssueSeverity → Bool
claim_issue_severity_is_blocked ClaimIssueSeverity.blocked = true
claim_issue_severity_is_blocked other = false

abbrev pub claim_issue_severity_is_stale : ClaimIssueSeverity → Bool
claim_issue_severity_is_stale ClaimIssueSeverity.stale = true
claim_issue_severity_is_stale other = false

abbrev pub claim_issue_severity_is_interrupt : ClaimIssueSeverity → Bool
claim_issue_severity_is_interrupt ClaimIssueSeverity.interrupt = true
claim_issue_severity_is_interrupt other = false

abbrev pub claim_issue_severity_is_refused : ClaimIssueSeverity → Bool
claim_issue_severity_is_refused ClaimIssueSeverity.refused = true
claim_issue_severity_is_refused other = false

abbrev pub work_boundary_status_is_dependency_closed : WorkBoundaryStatus → Bool
work_boundary_status_is_dependency_closed WorkBoundaryStatus.dependency_closed = true
work_boundary_status_is_dependency_closed other = false
