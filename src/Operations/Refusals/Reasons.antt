-- ===== src/Operations/Refusals/Reasons.antt =====
-- The primary issue of a request and the reason of its refusal, of src/langsop/operations/refusals.py.
use lang_sop.Operations.Refusals.Vocabulary.{OperationRefusalReason}
use lang_sop.Operations.Requests.Records.{OperationRequestValidationIssue}
use lang_sop.Operations.Requests.Vocabulary.{
  OperationRequestIssueKind, OperationRequestIssueSeverity,
}
use lang_sop.Base.{Bool, List, Option, first?, if◌then◌else◌, is_empty, leb, none, some, sort_by, ℕ}

-- The table of reasons, which has every kind of issue.
unfoldable pub reason_of_kind : OperationRequestIssueKind → OperationRefusalReason
reason_of_kind OperationRequestIssueKind.missing_field =
    OperationRefusalReason.missing_required_identity_field
reason_of_kind OperationRequestIssueKind.missing_authority_notice =
    OperationRefusalReason.missing_required_identity_field
reason_of_kind OperationRequestIssueKind.stale_authority_notice =
    OperationRefusalReason.stale_authority_notice
reason_of_kind OperationRequestIssueKind.missing_source_ref =
    OperationRefusalReason.missing_required_identity_field
reason_of_kind OperationRequestIssueKind.missing_completion_review =
    OperationRefusalReason.missing_required_identity_field
reason_of_kind OperationRequestIssueKind.missing_safety_field =
    OperationRefusalReason.missing_required_safety_field
reason_of_kind OperationRequestIssueKind.ambiguous_resource_target =
    OperationRefusalReason.ambiguous_resource_target
reason_of_kind OperationRequestIssueKind.live_effect_requested =
    OperationRefusalReason.live_effect_requested
reason_of_kind OperationRequestIssueKind.high_risk_review_required =
    OperationRefusalReason.high_risk_target_without_ir7_s03_review
reason_of_kind OperationRequestIssueKind.missing_rollback_or_abort_route =
    OperationRefusalReason.missing_rollback_or_abort_route
reason_of_kind OperationRequestIssueKind.credential_boundary_touched =
    OperationRefusalReason.credential_boundary_touched
reason_of_kind OperationRequestIssueKind.network_exposure_requested =
    OperationRefusalReason.network_exposure_requested
reason_of_kind OperationRequestIssueKind.destructive_action_possible =
    OperationRefusalReason.destructive_action_possible
reason_of_kind OperationRequestIssueKind.coordination_claim_promoted_to_dispatch =
    OperationRefusalReason.coordination_claim_promoted_to_dispatch
reason_of_kind OperationRequestIssueKind.mailbox_carrier_promoted_to_dispatch =
    OperationRefusalReason.mailbox_carrier_promoted_to_dispatch
reason_of_kind OperationRequestIssueKind.generated_projection_promoted_to_authority =
    OperationRefusalReason.generated_projection_promoted_to_authority
reason_of_kind OperationRequestIssueKind.forbidden_authority_tier =
    OperationRefusalReason.generated_projection_promoted_to_authority
reason_of_kind OperationRequestIssueKind.dry_run_not_required =
    OperationRefusalReason.live_effect_requested

unfoldable pub refusal_reason_for_issue :
    Option OperationRequestValidationIssue → OperationRefusalReason
unfolding reason_of_kind
refusal_reason_for_issue none = OperationRefusalReason.live_effect_requested
refusal_reason_for_issue (some issue) = reason_of_kind issue.issue_kind

-- The priority of a severity: the least comes first.
unfoldable pub priority : OperationRequestIssueSeverity → ℕ
priority OperationRequestIssueSeverity.fault = 0
priority OperationRequestIssueSeverity.refused = 1
priority OperationRequestIssueSeverity.interrupt = 2
priority OperationRequestIssueSeverity.stale = 3
priority OperationRequestIssueSeverity.review_required = 4
priority OperationRequestIssueSeverity.blocked = 5

abbrev pub precedes : OperationRequestValidationIssue → OperationRequestValidationIssue → Bool
precedes a b = leb (priority a.severity) (priority b.severity)

unfoldable pub primary_issue :
    List OperationRequestValidationIssue → Option OperationRequestValidationIssue
unfolding priority sort_by
primary_issue issues = if is_empty issues then none else first? (sort_by precedes issues)
