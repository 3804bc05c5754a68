-- ===== src/Operations/DryRun/Parts.antt =====
-- The constructor from keyword arguments of src/langsop/operations/dry_run.py.
use lang_sop.Operations.DryRun.Records.{DryRunResultRecord}
use lang_sop.Operations.DryRun.Vocabulary.{DryRunResultStatus, dry_run_result_status_value}
use lang_sop.Operations.Requests.Vocabulary.{operation_authority_tier_value}
use lang_sop.Operations.Requests.Parts.{operation_authority_tier_members}
use lang_sop.Base.{Bool, List, String, [], ◌∷◌}
use lang_sop.Records.{member}
use lang_sop.Operators.Values.{Converted, value, ◌>>=◌}

abbrev pub dry_run_result_status_members : List DryRunResultStatus
dry_run_result_status_members =
    DryRunResultStatus.accepted ∷ DryRunResultStatus.blocked ∷ DryRunResultStatus.faulted
    ∷ DryRunResultStatus.refused ∷ DryRunResultStatus.review_required ∷ []

-- The arguments of `dry_run_result_record_from_parts`. A member of an enumeration is given by its text.
pub record DryRunResultParts : Type 0 where
  pub dry_run_result_id : String
  pub dry_run_result_uuid : String
  pub operation_request_ref : String
  pub source_ref_set : List String
  pub authority_notice_ref : String
  pub simulated_effect_summary : String
  pub resource_target_ref : String
  pub risk_classification : String
  pub estimated_resource_use : String
  pub predicted_side_effect_set : List String
  pub refused_effect_set : List String
  pub required_human_approval : Bool
  pub rollback_or_abort_route : String
  pub stale_after : String
  pub live_effect_performed : Bool
  pub generated_output_ref : String
  pub completion_review_required : Bool
  pub non_authority_notice : String
  pub authority_tier : String
  pub review_status : String
  pub authority_promotion_claimed : Bool

unfoldable pub dry_run_result_record_from_parts : DryRunResultParts → Converted DryRunResultRecord
unfolding member operation_authority_tier_value dry_run_result_status_value
dry_run_result_record_from_parts p = do
  authority_tier_member ←
      member operation_authority_tier_value "OperationAuthorityTier"
        operation_authority_tier_members p.authority_tier
  review_status_member ←
      member dry_run_result_status_value "DryRunResultStatus" dry_run_result_status_members
        p.review_status
  value (record {
    dry_run_result_id = p.dry_run_result_id;
    dry_run_result_uuid = p.dry_run_result_uuid;
    operation_request_ref = p.operation_request_ref;
    source_ref_set = p.source_ref_set;
    authority_notice_ref = p.authority_notice_ref;
    simulated_effect_summary = p.simulated_effect_summary;
    resource_target_ref = p.resource_target_ref;
    risk_classification = p.risk_classification;
    estimated_resource_use = p.estimated_resource_use;
    predicted_side_effect_set = p.predicted_side_effect_set;
    refused_effect_set = p.refused_effect_set;
    required_human_approval = p.required_human_approval;
    rollback_or_abort_route = p.rollback_or_abort_route;
    live_effect_performed = p.live_effect_performed;
    generated_output_ref = p.generated_output_ref;
    completion_review_required = p.completion_review_required;
    non_authority_notice = p.non_authority_notice;
    stale_after = p.stale_after;
    authority_tier = authority_tier_member;
    review_status = review_status_member;
    authority_promotion_claimed = p.authority_promotion_claimed;
  })
