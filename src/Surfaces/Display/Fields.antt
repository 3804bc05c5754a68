-- ===== src/Surfaces/Display/Fields.antt =====
-- The field sets and other sets of src/langsop/surfaces/authority.py, and tests on its enumerations.
use lang_sop.Surfaces.Display.Vocabulary.{AuthorityDisplayIssueSeverity, AuthorityTier}
use lang_sop.Base.{Bool, List, String, [], false, true, ◌∷◌}

abbrev pub low_authority_action_set : List String
low_authority_action_set = "observe" ∷ "comment" ∷ "propose" ∷ []

abbrev pub authority_sensitive_action_set : List String
authority_sensitive_action_set =
    "request_work_packet" ∷ "request_claim" ∷ "request_review" ∷ "request_rebake"
    ∷ "request_interrupt_resolution" ∷ "request_human_override" ∷ "request_dry_run"
    ∷ "request_completion_review" ∷ []

abbrev pub direct_mutation_action_set : List String
direct_mutation_action_set =
    "direct_source_authority_write" ∷ "direct_source_write" ∷ "direct_accepted_pack_write"
    ∷ "direct_completion_review_acceptance" ∷ "direct_claim_acceptance" ∷ "direct_agent_dispatch"
    ∷ "direct_command_execution" ∷ "direct_operations_command" ∷ "source_mutation"
    ∷ "operations_control" ∷ "live_machine_control" ∷ []

abbrev pub freshness_state_set : List String
freshness_state_set =
    "fresh" ∷ "stale" ∷ "unknown" ∷ "contested" ∷ "interrupted" ∷ "blocked" ∷ "faulted"
    ∷ "pending_review" ∷ []

abbrev pub required_authority_display_field_set : List String
required_authority_display_field_set =
    "display_projection_id" ∷ "projected_subject_ref" ∷ "carrier_surface" ∷ "authority_tier"
    ∷ "trust_limit" ∷ "source_authority_ref_set" ∷ "derived_from_ref_set" ∷ "authority_notice_ref"
    ∷ "freshness_state" ∷ "risk_reason" ∷ "permitted_action_set" ∷ "forbidden_action_set"
    ∷ "required_route_set" ∷ "mutation_boundary_ref" ∷ "visible_before_action" ∷ []

abbrev pub authority_display_issue_severity_is_fault : AuthorityDisplayIssueSeverity → Bool
authority_display_issue_severity_is_fault AuthorityDisplayIssueSeverity.fault = true
authority_display_issue_severity_is_fault other = false

abbrev pub authority_display_issue_severity_is_blocked : AuthorityDisplayIssueSeverity → Bool
authority_display_issue_severity_is_blocked AuthorityDisplayIssueSeverity.blocked = true
authority_display_issue_severity_is_blocked other = false

abbrev pub authority_display_issue_severity_is_refused : AuthorityDisplayIssueSeverity → Bool
authority_display_issue_severity_is_refused AuthorityDisplayIssueSeverity.refused = true
authority_display_issue_severity_is_refused other = false

abbrev pub authority_tier_is_source_authority : AuthorityTier → Bool
authority_tier_is_source_authority AuthorityTier.source_authority = true
authority_tier_is_source_authority other = false
