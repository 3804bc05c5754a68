-- ===== src/Surfaces/State/Vocabulary.antt =====
-- The enumerations of src/langsop/surfaces/projection_state.py.
use lang_sop.Base.{String}

pub data ProjectionStatus : Type 0 where
  ready blocked stale faulted interrupted contested pending_review : ProjectionStatus
  unsupported_scope refused : ProjectionStatus

unfoldable pub projection_status_value : ProjectionStatus → String
projection_status_value ready = "ready"
projection_status_value blocked = "blocked"
projection_status_value stale = "stale"
projection_status_value faulted = "faulted"
projection_status_value interrupted = "interrupted"
projection_status_value contested = "contested"
projection_status_value pending_review = "pending_review"
projection_status_value unsupported_scope = "unsupported_scope"
projection_status_value refused = "refused"

pub data FreshnessState : Type 0 where
  fresh stale unknown contested interrupted blocked faulted pending_review : FreshnessState

unfoldable pub freshness_state_value : FreshnessState → String
freshness_state_value fresh = "fresh"
freshness_state_value stale = "stale"
freshness_state_value unknown = "unknown"
freshness_state_value contested = "contested"
freshness_state_value interrupted = "interrupted"
freshness_state_value blocked = "blocked"
freshness_state_value faulted = "faulted"
freshness_state_value pending_review = "pending_review"

pub data ProjectionStateIssueKind : Type 0 where
  missing_field missing_source_ref missing_lineage : ProjectionStateIssueKind
  missing_authority_notice ready_with_stop_state : ProjectionStateIssueKind
  ready_with_unfresh_state generated_authority : ProjectionStateIssueKind
  source_mutation_requested : ProjectionStateIssueKind

unfoldable pub projection_state_issue_kind_value : ProjectionStateIssueKind → String
projection_state_issue_kind_value missing_field = "missing_field"
projection_state_issue_kind_value missing_source_ref = "missing_source_ref_set"
projection_state_issue_kind_value missing_lineage = "missing_lineage_edge_set"
projection_state_issue_kind_value missing_authority_notice = "missing_authority_notice"
projection_state_issue_kind_value ready_with_stop_state = "ready_with_stop_state"
projection_state_issue_kind_value ready_with_unfresh_state = "ready_with_unfresh_state"
projection_state_issue_kind_value generated_authority = "generated_authority"
projection_state_issue_kind_value source_mutation_requested = "source_authority_mutation_requested"

pub data ProjectionStateIssueSeverity : Type 0 where
  blocked stale fault interrupt refused : ProjectionStateIssueSeverity

unfoldable pub projection_state_issue_severity_value : ProjectionStateIssueSeverity → String
projection_state_issue_severity_value blocked = "blocked"
projection_state_issue_severity_value stale = "stale"
projection_state_issue_severity_value fault = "fault"
projection_state_issue_severity_value interrupt = "interrupt"
projection_state_issue_severity_value refused = "refused"
