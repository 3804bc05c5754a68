-- ===== src/Operations/DryRun/Records.antt =====
-- The records of src/langsop/operations/dry_run.py.
use lang_sop.Operations.DryRun.Fields.{
  dry_run_result_issue_severity_is_fault, dry_run_result_issue_severity_is_refused,
  non_authority_notice, operation_authority_tier_is_operations_planning_record,
}
use lang_sop.Operations.DryRun.Vocabulary.{
  DryRunResultIssueKind, DryRunResultIssueSeverity, DryRunResultStatus,
}
use lang_sop.Operations.Requests.Vocabulary.{OperationAuthorityTier}
use lang_sop.Base.{Bool, List, Option, String, [], any, not, ◌&&◌, ◌==◌, ◌∷◌}
use lang_sop.Records.{Dict}

pub record DryRunResultIssue : Type 0 where
  pub issue_kind : DryRunResultIssueKind
  pub severity : DryRunResultIssueSeverity
  pub reason : String
  pub field_name : Option String

abbrev pub dry_run_result_issue :
    DryRunResultIssueKind → DryRunResultIssueSeverity → String → Option String → DryRunResultIssue
dry_run_result_issue issue_kind severity reason field_name = record {
  issue_kind = issue_kind;
  severity = severity;
  reason = reason;
  field_name = field_name;
}

pub record DryRunResultValidation : Type 0 where
  pub accepted : Bool
  pub status : DryRunResultStatus
  pub issues : List DryRunResultIssue

abbrev pub dry_run_result_validation :
    Bool → DryRunResultStatus → List DryRunResultIssue → DryRunResultValidation
dry_run_result_validation accepted' status issues = record {
  accepted = accepted';
  status = status;
  issues = issues;
}

pub record DryRunResultRecord : Type 0 where
  pub dry_run_result_id : String
  pub dry_run_result_uuid : String
  pub operation_request_ref : String
  pub source_ref_set : List String
  pub authority_notice_ref : String
  pub simulated_effect_summary : String
  pub resource_target_ref : String
  pub risk_classification : String
  pub estimated_resource_use : String
  pub predicted_side_effect_set : List String
  pub refused_effect_set : List String
  pub required_human_approval : Bool
  pub rollback_or_abort_route : String
  pub live_effect_performed : Bool
  pub generated_output_ref : String
  pub completion_review_required : Bool
  pub non_authority_notice : String
  pub stale_after : String
  pub authority_tier : OperationAuthorityTier
  pub review_status : DryRunResultStatus
  pub authority_promotion_claimed : Bool

abbrev pub dry_run_result_record_texts : DryRunResultRecord → Dict
dry_run_result_record_texts e =
    ("dry_run_result_id", e.dry_run_result_id)
    ∷ ("dry_run_result_uuid", e.dry_run_result_uuid)
    ∷ ("operation_request_ref", e.operation_request_ref)
    ∷ ("authority_notice_ref", e.authority_notice_ref)
    ∷ ("simulated_effect_summary", e.simulated_effect_summary)
    ∷ ("resource_target_ref", e.resource_target_ref)
    ∷ ("risk_classification", e.risk_classification)
    ∷ ("estimated_resource_use", e.estimated_resource_use)
    ∷ ("rollback_or_abort_route", e.rollback_or_abort_route)
    ∷ ("generated_output_ref", e.generated_output_ref)
    ∷ ("non_authority_notice", e.non_authority_notice)
    ∷ ("stale_after", e.stale_after)
    ∷ []

unfoldable pub has_refusal : DryRunResultValidation → Bool
unfolding any
has_refusal e = any (λ issue. dry_run_result_issue_severity_is_refused issue.severity) e.issues

unfoldable pub has_fault : DryRunResultValidation → Bool
unfolding any
has_fault e = any (λ issue. dry_run_result_issue_severity_is_fault issue.severity) e.issues

unfoldable pub is_non_authoritative : DryRunResultRecord → Bool
is_non_authoritative e =
    not e.live_effect_performed
    && (e.completion_review_required
        && ((e.non_authority_notice == non_authority_notice)
            && (operation_authority_tier_is_operations_planning_record e.authority_tier)))
