-- ===== src/Operations/Safety/Parts.antt =====
-- The constructors from keyword arguments of src/langsop/operations/resource_safety.py.
use lang_sop.Operations.Safety.Records.{
  BlastRadiusEnvelope, HumanApprovalEnvelope, RollbackAbortRouteEnvelope,
}
use lang_sop.Operations.Safety.Vocabulary.{HumanApprovalState, human_approval_state_value}
use lang_sop.Base.{Bool, List, String, [], ◌∷◌}
use lang_sop.Records.{member}
use lang_sop.Operators.Values.{Converted, value, ◌>>=◌}

unfoldable pub blast_radius_envelope_from_parts :
    List String
    → String
    → String
    → List String
    → String
    → List String
    → String
    → String
    → String
    → String
    → BlastRadiusEnvelope
blast_radius_envelope_from_parts affected_resource_set expected_duration
      cost_or_utilization_estimate possible_side_effect_set rollback_or_abort_route_ref
      monitoring_signal_set owner_or_human_contact_ref stale_after authority_notice_ref
      blast_radius_state =
    record {
      affected_resource_set = affected_resource_set;
      expected_duration = expected_duration;
      cost_or_utilization_estimate = cost_or_utilization_estimate;
      possible_side_effect_set = possible_side_effect_set;
      rollback_or_abort_route_ref = rollback_or_abort_route_ref;
      monitoring_signal_set = monitoring_signal_set;
      owner_or_human_contact_ref = owner_or_human_contact_ref;
      stale_after = stale_after;
      authority_notice_ref = authority_notice_ref;
      blast_radius_state = blast_radius_state;
    }

unfoldable pub rollback_abort_route_envelope_from_parts :
    String
    → List String
    → List String
    → String
    → List String
    → String
    → String
    → String
    → List String
    → String
    → RollbackAbortRouteEnvelope
rollback_abort_route_envelope_from_parts rollback_or_abort_route_id abort_condition_set
      rollback_step_set safe_shutdown_condition monitoring_signal_set owner_or_human_contact_ref
      stale_after authority_notice_ref affected_resource_set route_state =
    record {
      rollback_or_abort_route_id = rollback_or_abort_route_id;
      abort_condition_set = abort_condition_set;
      rollback_step_set = rollback_step_set;
      safe_shutdown_condition = safe_shutdown_condition;
      monitoring_signal_set = monitoring_signal_set;
      owner_or_human_contact_ref = owner_or_human_contact_ref;
      stale_after = stale_after;
      authority_notice_ref = authority_notice_ref;
      affected_resource_set = affected_resource_set;
      route_state = route_state;
    }

abbrev pub human_approval_state_members : List HumanApprovalState
human_approval_state_members =
    HumanApprovalState.absent ∷ HumanApprovalState.requested ∷ HumanApprovalState.fresh_scoped
    ∷ HumanApprovalState.stale ∷ HumanApprovalState.revoked ∷ HumanApprovalState.mismatched
    ∷ HumanApprovalState.broad_invalid ∷ []

-- The arguments of `human_approval_envelope_from_parts`. A member of an enumeration is given by its text.
pub record HumanApprovalParts : Type 0 where
  pub human_approval_id : String
  pub approved_by : String
  pub approved_at : String
  pub approved_operation_request_ref : String
  pub approved_intended_effect : String
  pub approved_resource_target : String
  pub authority_notice_ref : String
  pub risk_classification : String
  pub blast_radius_ref : String
  pub rollback_or_abort_route_ref : String
  pub expiration_or_stale_after : String
  pub explicit_limit_set : List String
  pub revocation_route : String
  pub approval_state : String
  pub broad_approval_requested : Bool
  pub live_control_authority_claimed : Bool

unfoldable pub human_approval_envelope_from_parts :
    HumanApprovalParts → Converted HumanApprovalEnvelope
unfolding member human_approval_state_value
human_approval_envelope_from_parts p = do
  approval_state_member ←
      member human_approval_state_value "HumanApprovalState" human_approval_state_members
        p.approval_state
  value (record {
    human_approval_id = p.human_approval_id;
    approved_by = p.approved_by;
    approved_at = p.approved_at;
    approved_operation_request_ref = p.approved_operation_request_ref;
    approved_intended_effect = p.approved_intended_effect;
    approved_resource_target = p.approved_resource_target;
    authority_notice_ref = p.authority_notice_ref;
    risk_classification = p.risk_classification;
    blast_radius_ref = p.blast_radius_ref;
    rollback_or_abort_route_ref = p.rollback_or_abort_route_ref;
    expiration_or_stale_after = p.expiration_or_stale_after;
    explicit_limit_set = p.explicit_limit_set;
    revocation_route = p.revocation_route;
    approval_state = approval_state_member;
    broad_approval_requested = p.broad_approval_requested;
    live_control_authority_claimed = p.live_control_authority_claimed;
  })
