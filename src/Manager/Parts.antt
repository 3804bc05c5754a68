-- ===== src/Manager/Parts.antt =====
-- The constructor from keyword arguments of src/langsop/manager/records.py.
use lang_sop.Manager.Records.{ManagerCycleInput}
use lang_sop.Manager.Vocabulary.{
  ManagerAuthorityClass, ManagerFreshnessState, ManagerModelRoute, manager_authority_class_value,
  manager_freshness_state_value, manager_model_route_value,
}
use lang_sop.Base.{List, String, [], ◌∷◌}
use lang_sop.Records.{member}
use lang_sop.Operators.Values.{Converted, value, ◌>>=◌}

abbrev pub manager_model_route_members : List ManagerModelRoute
manager_model_route_members =
    ManagerModelRoute.gpt_5_3_codex_spark_suitable ∷ ManagerModelRoute.requires_deeper_reasoning
    ∷ ManagerModelRoute.missing ∷ []

abbrev pub manager_freshness_state_members : List ManagerFreshnessState
manager_freshness_state_members =
    ManagerFreshnessState.fresh ∷ ManagerFreshnessState.stale ∷ ManagerFreshnessState.unknown
    ∷ ManagerFreshnessState.contested ∷ ManagerFreshnessState.blocked
    ∷ ManagerFreshnessState.interrupted ∷ ManagerFreshnessState.faulted
    ∷ ManagerFreshnessState.pending_review ∷ []

abbrev pub manager_authority_class_members : List ManagerAuthorityClass
manager_authority_class_members =
    ManagerAuthorityClass.source_authority ∷ ManagerAuthorityClass.manager_planning_record
    ∷ ManagerAuthorityClass.accepted_execution_evidence ∷ ManagerAuthorityClass.coordination_record
    ∷ ManagerAuthorityClass.operations_dry_run_record ∷ ManagerAuthorityClass.generated_projection
    ∷ ManagerAuthorityClass.graph_checkpoint ∷ ManagerAuthorityClass.carrier_context
    ∷ ManagerAuthorityClass.human_override_context ∷ ManagerAuthorityClass.unknown ∷ []

-- The arguments of `manager_cycle_input_from_parts`. A member of an enumeration is given by its text.
pub record ManagerCycleInputParts : Type 0 where
  pub cycle_id : String
  pub work_ref : String
  pub source_ref_set : List String
  pub authority_notice_ref : String
  pub source_authority_state : String
  pub support_state : String
  pub coordination_state : String
  pub operations_dry_run_state : String
  pub carrier_context_kind : String
  pub carrier_context_state : String
  pub surface_kind : String
  pub requested_effect_classification_state : String
  pub requested_effect_kind : String
  pub requested_promotion : String
  pub live_authority_state : String
  pub human_override_state : String
  pub override_scope : String
  pub risk_context_state : String
  pub revocation_route_state : String
  pub generated_projection_state : String
  pub graph_checkpoint_state : String
  pub kernel_reference_state : String
  pub model_route : String
  pub model_route_state : String
  pub completion_review_ref : String
  pub proof_obligation_ref_set : List String
  pub freshness_state : String
  pub authority_class : String

unfoldable pub manager_cycle_input_from_parts : ManagerCycleInputParts → Converted ManagerCycleInput
unfolding member manager_model_route_value manager_freshness_state_value
    manager_authority_class_value
manager_cycle_input_from_parts p = do
  model_route_member ←
      member manager_model_route_value "ManagerModelRoute" manager_model_route_members p.model_route
  freshness_state_member ←
      member manager_freshness_state_value "ManagerFreshnessState" manager_freshness_state_members
        p.freshness_state
  authority_class_member ←
      member manager_authority_class_value "ManagerAuthorityClass" manager_authority_class_members
        p.authority_class
  value (record {
    cycle_id = p.cycle_id;
    work_ref = p.work_ref;
    source_ref_set = p.source_ref_set;
    authority_notice_ref = p.authority_notice_ref;
    source_authority_state = p.source_authority_state;
    support_state = p.support_state;
    coordination_state = p.coordination_state;
    operations_dry_run_state = p.operations_dry_run_state;
    carrier_context_kind = p.carrier_context_kind;
    carrier_context_state = p.carrier_context_state;
    surface_kind = p.surface_kind;
    requested_effect_classification_state = p.requested_effect_classification_state;
    requested_effect_kind = p.requested_effect_kind;
    requested_promotion = p.requested_promotion;
    live_authority_state = p.live_authority_state;
    human_override_state = p.human_override_state;
    override_scope = p.override_scope;
    risk_context_state = p.risk_context_state;
    revocation_route_state = p.revocation_route_state;
    generated_projection_state = p.generated_projection_state;
    graph_checkpoint_state = p.graph_checkpoint_state;
    kernel_reference_state = p.kernel_reference_state;
    model_route = model_route_member;
    model_route_state = p.model_route_state;
    completion_review_ref = p.completion_review_ref;
    proof_obligation_ref_set = p.proof_obligation_ref_set;
    freshness_state = freshness_state_member;
    authority_class = authority_class_member;
  })
