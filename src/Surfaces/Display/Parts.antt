-- ===== src/Surfaces/Display/Parts.antt =====
-- The constructor from keyword arguments of src/langsop/surfaces/authority.py.
use lang_sop.Surfaces.Display.Records.{AuthorityDisplayEnvelope}
use lang_sop.Surfaces.Display.Vocabulary.{AuthorityTier, authority_tier_value}
use lang_sop.Base.{Bool, List, String, [], ◌∷◌}
use lang_sop.Records.{member}
use lang_sop.Operators.Values.{Converted, value, ◌>>=◌}

abbrev pub authority_tier_members : List AuthorityTier
authority_tier_members =
    AuthorityTier.source_authority ∷ AuthorityTier.accepted_execution_evidence
    ∷ AuthorityTier.generated_projection_evidence ∷ AuthorityTier.carrier_context ∷ []

-- The arguments of `authority_display_envelope_from_parts`. A member of an enumeration is given by its text.
pub record AuthorityDisplayParts : Type 0 where
  pub display_projection_id : String
  pub projected_subject_ref : String
  pub carrier_surface : String
  pub authority_tier : String
  pub trust_limit : String
  pub source_authority_ref_set : List String
  pub derived_from_ref_set : List String
  pub authority_notice_ref : String
  pub freshness_state : String
  pub risk_reason : String
  pub permitted_action_set : List String
  pub forbidden_action_set : List String
  pub required_route_set : List String
  pub mutation_boundary_ref : String
  pub visible_before_action : Bool
  pub lower_authority_tier_misrepresented : Bool
  pub source_authority_mutation_requested : Bool

unfoldable pub authority_display_envelope_from_parts :
    AuthorityDisplayParts → Converted AuthorityDisplayEnvelope
unfolding member authority_tier_value
authority_display_envelope_from_parts p = do
  authority_tier_member ←
      member authority_tier_value "AuthorityTier" authority_tier_members p.authority_tier
  value (record {
    display_projection_id = p.display_projection_id;
    projected_subject_ref = p.projected_subject_ref;
    carrier_surface = p.carrier_surface;
    authority_tier = authority_tier_member;
    trust_limit = p.trust_limit;
    source_authority_ref_set = p.source_authority_ref_set;
    derived_from_ref_set = p.derived_from_ref_set;
    authority_notice_ref = p.authority_notice_ref;
    freshness_state = p.freshness_state;
    risk_reason = p.risk_reason;
    permitted_action_set = p.permitted_action_set;
    forbidden_action_set = p.forbidden_action_set;
    required_route_set = p.required_route_set;
    mutation_boundary_ref = p.mutation_boundary_ref;
    visible_before_action = p.visible_before_action;
    lower_authority_tier_misrepresented = p.lower_authority_tier_misrepresented;
    source_authority_mutation_requested = p.source_authority_mutation_requested;
  })
