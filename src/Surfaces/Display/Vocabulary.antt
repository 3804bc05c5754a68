-- ===== src/Surfaces/Display/Vocabulary.antt =====
-- The enumerations of src/langsop/surfaces/authority.py.
use lang_sop.Base.{String}

pub data AuthorityTier : Type 0 where
  source_authority accepted_execution_evidence generated_projection_evidence : AuthorityTier
  carrier_context : AuthorityTier

unfoldable pub authority_tier_value : AuthorityTier → String
authority_tier_value source_authority = "source_authority"
authority_tier_value accepted_execution_evidence = "accepted_execution_evidence"
authority_tier_value generated_projection_evidence = "generated_projection_evidence"
authority_tier_value carrier_context = "carrier_context"

pub data AuthorityDisplayIssueKind : Type 0 where
  missing_field missing_source_ref missing_authority_notice : AuthorityDisplayIssueKind
  missing_freshness_state missing_required_route : AuthorityDisplayIssueKind
  hidden_forbidden_action lower_tier_misrepresented : AuthorityDisplayIssueKind
  source_mutation_requested : AuthorityDisplayIssueKind

unfoldable pub authority_display_issue_kind_value : AuthorityDisplayIssueKind → String
authority_display_issue_kind_value missing_field = "missing_field"
authority_display_issue_kind_value missing_source_ref = "missing_source_ref_set"
authority_display_issue_kind_value missing_authority_notice = "missing_authority_notice"
authority_display_issue_kind_value missing_freshness_state = "missing_freshness_state"
authority_display_issue_kind_value missing_required_route = "missing_required_route_set"
authority_display_issue_kind_value hidden_forbidden_action = "hidden_forbidden_action_set"
authority_display_issue_kind_value lower_tier_misrepresented = "lower_authority_tier_misrepresented"
authority_display_issue_kind_value source_mutation_requested = "source_authority_mutation_requested"

pub data AuthorityDisplayIssueSeverity : Type 0 where
  blocked fault refused : AuthorityDisplayIssueSeverity

unfoldable pub authority_display_issue_severity_value : AuthorityDisplayIssueSeverity → String
authority_display_issue_severity_value blocked = "blocked"
authority_display_issue_severity_value fault = "fault"
authority_display_issue_severity_value refused = "refused"
