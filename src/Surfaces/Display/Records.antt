-- ===== src/Surfaces/Display/Records.antt =====
-- The records of src/langsop/surfaces/authority.py.
use lang_sop.Surfaces.Display.Fields.{
  authority_display_issue_severity_is_blocked, authority_display_issue_severity_is_fault,
  authority_display_issue_severity_is_refused, authority_sensitive_action_set,
  authority_tier_is_source_authority,
}
use lang_sop.Surfaces.Display.Vocabulary.{
  AuthorityDisplayIssueKind, AuthorityDisplayIssueSeverity, AuthorityTier,
}
use lang_sop.Base.{Bool, List, Option, String, [], any, is_empty, not, ◌∷◌}
use lang_sop.Text.Sets.{distinct, intersection}
use lang_sop.Records.{Dict}

pub record AuthorityDisplayIssue : Type 0 where
  pub issue_kind : AuthorityDisplayIssueKind
  pub severity : AuthorityDisplayIssueSeverity
  pub reason : String
  pub field_name : Option String

abbrev pub authority_display_issue :
    AuthorityDisplayIssueKind
    → AuthorityDisplayIssueSeverity
    → String
    → Option String
    → AuthorityDisplayIssue
authority_display_issue issue_kind severity reason field_name = record {
  issue_kind = issue_kind;
  severity = severity;
  reason = reason;
  field_name = field_name;
}

pub record AuthorityDisplayValidationResult : Type 0 where
  pub accepted : Bool
  pub issues : List AuthorityDisplayIssue

abbrev pub authority_display_validation_result :
    Bool → List AuthorityDisplayIssue → AuthorityDisplayValidationResult
authority_display_validation_result accepted' issues = record {
  accepted = accepted';
  issues = issues;
}

pub record AuthorityDisplayEnvelope : Type 0 where
  pub display_projection_id : String
  pub projected_subject_ref : String
  pub carrier_surface : String
  pub authority_tier : AuthorityTier
  pub trust_limit : String
  pub source_authority_ref_set : List String
  pub derived_from_ref_set : List String
  pub authority_notice_ref : String
  pub freshness_state : String
  pub risk_reason : String
  pub permitted_action_set : List String
  pub forbidden_action_set : List String
  pub required_route_set : List String
  pub mutation_boundary_ref : String
  pub visible_before_action : Bool
  pub lower_authority_tier_misrepresented : Bool
  pub source_authority_mutation_requested : Bool

abbrev pub authority_display_envelope_texts : AuthorityDisplayEnvelope → Dict
authority_display_envelope_texts e =
    ("display_projection_id", e.display_projection_id)
    ∷ ("projected_subject_ref", e.projected_subject_ref)
    ∷ ("carrier_surface", e.carrier_surface)
    ∷ ("trust_limit", e.trust_limit)
    ∷ ("authority_notice_ref", e.authority_notice_ref)
    ∷ ("freshness_state", e.freshness_state)
    ∷ ("risk_reason", e.risk_reason)
    ∷ ("mutation_boundary_ref", e.mutation_boundary_ref)
    ∷ []

unfoldable pub has_fault : AuthorityDisplayValidationResult → Bool
unfolding any
has_fault e = any (λ issue. authority_display_issue_severity_is_fault issue.severity) e.issues

unfoldable pub has_blocker : AuthorityDisplayValidationResult → Bool
unfolding any
has_blocker e = any (λ issue. authority_display_issue_severity_is_blocked issue.severity) e.issues

unfoldable pub has_refusal : AuthorityDisplayValidationResult → Bool
unfolding any
has_refusal e = any (λ issue. authority_display_issue_severity_is_refused issue.severity) e.issues

unfoldable pub is_source_authority : AuthorityDisplayEnvelope → Bool
is_source_authority e = authority_tier_is_source_authority e.authority_tier

unfoldable pub includes_authority_sensitive_action : AuthorityDisplayEnvelope → Bool
unfolding distinct intersection
includes_authority_sensitive_action e =
    not (is_empty (intersection (distinct e.permitted_action_set) authority_sensitive_action_set))
