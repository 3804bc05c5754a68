-- ===== src/Operations/DryRun/Vocabulary.antt =====
-- The enumerations of src/langsop/operations/dry_run.py.
use lang_sop.Base.{String}

pub data DryRunResultIssueKind : Type 0 where
  missing_field live_effect_performed missing_non_authority_notice : DryRunResultIssueKind
  missing_completion_review authority_promotion : DryRunResultIssueKind

unfoldable pub dry_run_result_issue_kind_value : DryRunResultIssueKind → String
dry_run_result_issue_kind_value missing_field = "missing_field"
dry_run_result_issue_kind_value live_effect_performed = "live_effect_performed"
dry_run_result_issue_kind_value missing_non_authority_notice = "missing_non_authority_notice"
dry_run_result_issue_kind_value missing_completion_review = "missing_completion_review"
dry_run_result_issue_kind_value authority_promotion = "authority_promotion"

pub data DryRunResultIssueSeverity : Type 0 where
  fault refused blocked : DryRunResultIssueSeverity

unfoldable pub dry_run_result_issue_severity_value : DryRunResultIssueSeverity → String
dry_run_result_issue_severity_value fault = "fault"
dry_run_result_issue_severity_value refused = "refused"
dry_run_result_issue_severity_value blocked = "blocked"

pub data DryRunResultStatus : Type 0 where
  accepted blocked faulted refused review_required : DryRunResultStatus

unfoldable pub dry_run_result_status_value : DryRunResultStatus → String
dry_run_result_status_value accepted = "accepted"
dry_run_result_status_value blocked = "blocked"
dry_run_result_status_value faulted = "faulted"
dry_run_result_status_value refused = "refused"
dry_run_result_status_value review_required = "review_required"
