-- ===== src/Surfaces/Display.antt =====
-- src/langsop/surfaces/authority.py: the check of an authority display.
pub mod Vocabulary
pub mod Fields
pub mod Records
pub mod Parts
use lang_sop.Surfaces.Display.Records.{
  AuthorityDisplayEnvelope, AuthorityDisplayIssue, AuthorityDisplayValidationResult,
  authority_display_envelope_texts, authority_display_issue, authority_display_validation_result,
  is_source_authority,
}
use lang_sop.Surfaces.Display.Fields.{
  direct_mutation_action_set, freshness_state_set, required_authority_display_field_set,
}
use lang_sop.Surfaces.Display.Vocabulary.{AuthorityDisplayIssueKind, AuthorityDisplayIssueSeverity}
use lang_sop.Base.{
  Bool, List, [], contains, false, if◌then◌else◌, is_empty, is_empty_text, map, not, only_if, some,
  ◌++◌, ◌<>◌, ◌||◌, ◌∷◌,
}
use lang_sop.Text.{has_part, lower}
use lang_sop.Text.Sets.{distinct, intersection}
use lang_sop.Text.Affixes.{join_texts}
use lang_sop.Records.{missing_names}

unfoldable pub lower_tier_claims_source_authority : AuthorityDisplayEnvelope → Bool
unfolding has_part is_source_authority join_texts lower
lower_tier_claims_source_authority envelope =
    if is_source_authority envelope
    then false
    else let lower_text = lower (
        join_texts " " (
          (envelope.trust_limit ∷ [])
          ++ ((envelope.risk_reason ∷ [])
              ++ ((envelope.mutation_boundary_ref ∷ []) ++ envelope.permitted_action_set)))) in
      ((has_part lower_text "source_authority") || (has_part lower_text "source authority"))

unfoldable pub validate_authority_display_envelope :
    AuthorityDisplayEnvelope → AuthorityDisplayValidationResult
unfolding contains distinct intersection lower_tier_claims_source_authority missing_names
validate_authority_display_envelope envelope =
    let issues : List AuthorityDisplayIssue =
      map
        (λ field_name.
          authority_display_issue AuthorityDisplayIssueKind.missing_field
            AuthorityDisplayIssueSeverity.fault (field_name <> " is required") (some field_name))
        (missing_names (authority_display_envelope_texts envelope)
          required_authority_display_field_set)
      ++ (only_if (is_empty envelope.source_authority_ref_set) (
            authority_display_issue AuthorityDisplayIssueKind.missing_source_ref
              AuthorityDisplayIssueSeverity.fault
              "source authority refs are required before projection use"
              (some "source_authority_ref_set"))
          ++ (only_if (is_empty_text envelope.authority_notice_ref) (
                authority_display_issue AuthorityDisplayIssueKind.missing_authority_notice
                  AuthorityDisplayIssueSeverity.fault
                  "authority notice ref is required before projection use"
                  (some "authority_notice_ref"))
              ++ (only_if (not (contains envelope.freshness_state freshness_state_set)) (
                    authority_display_issue AuthorityDisplayIssueKind.missing_freshness_state
                      AuthorityDisplayIssueSeverity.fault
                      "freshness state must use the accepted IR5 vocabulary"
                      (some "freshness_state"))
                  ++ (only_if (is_empty envelope.required_route_set) (
                        authority_display_issue AuthorityDisplayIssueKind.missing_required_route
                          AuthorityDisplayIssueSeverity.fault
                          "required route set must be visible before action"
                          (some "required_route_set"))
                      ++ (only_if (is_empty envelope.forbidden_action_set) (
                            authority_display_issue
                              AuthorityDisplayIssueKind.hidden_forbidden_action
                              AuthorityDisplayIssueSeverity.blocked
                              "forbidden action set must be visible before action"
                              (some "forbidden_action_set"))
                          ++ (only_if
                                (envelope.lower_authority_tier_misrepresented
                                  || lower_tier_claims_source_authority envelope)
                                (authority_display_issue
                                  AuthorityDisplayIssueKind.lower_tier_misrepresented
                                  AuthorityDisplayIssueSeverity.fault
                                  "lower-tier records may not be displayed as source authority"
                                  (some "authority_tier"))
                              ++ (only_if
                                  (envelope.source_authority_mutation_requested
                                    || not (
                                        is_empty (
                                          intersection (distinct envelope.permitted_action_set)
                                            direct_mutation_action_set)))
                                  (authority_display_issue
                                    AuthorityDisplayIssueKind.source_mutation_requested
                                    AuthorityDisplayIssueSeverity.refused
                                    "display state may not request direct source or operations mutation"
                                    (some "permitted_action_set"))))))))) in
    authority_display_validation_result (is_empty issues) issues
