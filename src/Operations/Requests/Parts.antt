-- ===== src/Operations/Requests/Parts.antt =====
-- The constructor from keyword arguments of src/langsop/operations/requests.py.
use lang_sop.Operations.Requests.Records.{OperationRequestEnvelope}
use lang_sop.Operations.Requests.Vocabulary.{
  OperationAuthorityTier, OperationFreshnessState, operation_authority_tier_value,
  operation_freshness_state_value,
}
use lang_sop.Base.{Bool, List, String, [], ◌∷◌}
use lang_sop.Records.{member}
use lang_sop.Operators.Values.{Converted, value, ◌>>=◌}

abbrev pub operation_authority_tier_members : List OperationAuthorityTier
operation_authority_tier_members =
    OperationAuthorityTier.operations_planning_record ∷ OperationAuthorityTier.source_authority
    ∷ OperationAuthorityTier.live_control_authority ∷ OperationAuthorityTier.dispatch_authority
    ∷ OperationAuthorityTier.credential_authority ∷ OperationAuthorityTier.network_authority
    ∷ OperationAuthorityTier.destructive_filesystem_authority ∷ []

abbrev pub operation_freshness_state_members : List OperationFreshnessState
operation_freshness_state_members =
    OperationFreshnessState.fresh ∷ OperationFreshnessState.pending_review
    ∷ OperationFreshnessState.stale ∷ OperationFreshnessState.unknown
    ∷ OperationFreshnessState.interrupted ∷ OperationFreshnessState.faulted ∷ []

-- The arguments of `operation_request_envelope_from_parts`. A member of an enumeration is given by its text.
pub record OperationRequestParts : Type 0 where
  pub operation_request_id : String
  pub operation_request_uuid : String
  pub request_created_at : String
  pub requested_by : String
  pub conversation_uuid : String
  pub carrier_surface : String
  pub source_ref_set : List String
  pub authority_notice_ref : String
  pub authority_tier : String
  pub freshness_state : String
  pub parent_request_ref : String
  pub completion_review_ref : String
  pub supersedes_request_ref_set : List String
  pub source_projection_boundary_ref : String
  pub intended_effect : String
  pub resource_target : String
  pub resource_target_classification : String
  pub risk_classification : String
  pub blast_radius : String
  pub dry_run_required : Bool
  pub rollback_or_abort_route : String
  pub credential_boundary_ref : String
  pub network_boundary_ref : String
  pub human_approval_ref : String
  pub predicted_side_effect_set : List String
  pub stale_after : String
  pub refusal_policy_ref : String
  pub no_live_effect_rule_ref : String
  pub cited_authority_set : List String
  pub authority_notice_state : String
  pub requested_authority_promotion : Bool

unfoldable pub operation_request_envelope_from_parts :
    OperationRequestParts → Converted OperationRequestEnvelope
unfolding member operation_authority_tier_value operation_freshness_state_value
operation_request_envelope_from_parts p = do
  authority_tier_member ←
      member operation_authority_tier_value "OperationAuthorityTier"
        operation_authority_tier_members p.authority_tier
  freshness_state_member ←
      member operation_freshness_state_value "OperationFreshnessState"
        operation_freshness_state_members p.freshness_state
  value (record {
    operation_request_id = p.operation_request_id;
    operation_request_uuid = p.operation_request_uuid;
    request_created_at = p.request_created_at;
    requested_by = p.requested_by;
    conversation_uuid = p.conversation_uuid;
    carrier_surface = p.carrier_surface;
    source_ref_set = p.source_ref_set;
    authority_notice_ref = p.authority_notice_ref;
    authority_tier = authority_tier_member;
    freshness_state = freshness_state_member;
    parent_request_ref = p.parent_request_ref;
    completion_review_ref = p.completion_review_ref;
    supersedes_request_ref_set = p.supersedes_request_ref_set;
    source_projection_boundary_ref = p.source_projection_boundary_ref;
    intended_effect = p.intended_effect;
    resource_target = p.resource_target;
    resource_target_classification = p.resource_target_classification;
    risk_classification = p.risk_classification;
    blast_radius = p.blast_radius;
    dry_run_required = p.dry_run_required;
    rollback_or_abort_route = p.rollback_or_abort_route;
    credential_boundary_ref = p.credential_boundary_ref;
    network_boundary_ref = p.network_boundary_ref;
    human_approval_ref = p.human_approval_ref;
    predicted_side_effect_set = p.predicted_side_effect_set;
    stale_after = p.stale_after;
    refusal_policy_ref = p.refusal_policy_ref;
    no_live_effect_rule_ref = p.no_live_effect_rule_ref;
    cited_authority_set = p.cited_authority_set;
    authority_notice_state = p.authority_notice_state;
    requested_authority_promotion = p.requested_authority_promotion;
  })
