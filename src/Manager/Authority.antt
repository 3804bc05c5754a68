-- ===== src/Manager/Authority.antt =====
-- src/langsop/manager/authority.py: the authority class of a record, and its check.
pub mod Promotion
use lang_sop.Base.{
  String, ◌<>◌, Bool, true, false, not, ◌&&◌, ◌==◌, some, List, [], ◌∷◌, ◌++◌, contains, is_empty,
  is_empty_text, only_if, if◌then◌else◌,
}
use lang_sop.Manager.Vocabulary.{
  ManagerAuthorityClass, ManagerIssueKind, ManagerIssueSeverity, manager_authority_class_value,
}
use lang_sop.Manager.Records.{ManagerIssue, manager_issue}

abbrev pub source_record_kind_set : List String
source_record_kind_set =
    "source_document" ∷ "canonical_specification" ∷ "sjs_signature" ∷ "completion_review" ∷ []

abbrev pub execution_evidence_kind_set : List String
execution_evidence_kind_set = "accepted_proof_pack" ∷ "accepted_test_result" ∷ []

abbrev pub coordination_kind_set : List String
coordination_kind_set = "coordination_claim" ∷ "rendezvous_packet" ∷ []

abbrev pub operations_dry_run_kind_set : List String
operations_dry_run_kind_set = "operation_dry_run_result" ∷ "dry_run_evidence" ∷ []

abbrev pub generated_projection_kind_set : List String
generated_projection_kind_set = "generated_projection" ∷ "generated_report" ∷ []

abbrev pub graph_checkpoint_kind_set : List String
graph_checkpoint_kind_set = "graph_checkpoint" ∷ "langgraph_checkpoint" ∷ []

abbrev pub carrier_context_kind_set : List String
carrier_context_kind_set = "mailbox_message" ∷ "chat_message" ∷ "terminal_output" ∷ []

abbrev pub human_override_kind_set : List String
human_override_kind_set = "human_override" ∷ "human_approval" ∷ []

abbrev pub in_promotable_to_source_authority_set : ManagerAuthorityClass → Bool
in_promotable_to_source_authority_set ManagerAuthorityClass.source_authority = true
in_promotable_to_source_authority_set other = false

pub record ManagerAuthorityClassification : Type 0 where
  pub record_ref : String
  pub record_kind : String
  pub authority_class : ManagerAuthorityClass
  pub issues : List ManagerIssue
  pub source_authority_promoted : Bool
  pub dispatch_authorized : Bool
  pub live_effect_performed : Bool

unfoldable pub accepted : ManagerAuthorityClassification → Bool
accepted e = is_empty e.issues

unfoldable pub classify_manager_record_authority : String → String → ManagerAuthorityClass
unfolding contains
classify_manager_record_authority record_kind requested_promotion =
    if contains record_kind source_record_kind_set
    then ManagerAuthorityClass.source_authority
    else if contains record_kind execution_evidence_kind_set
    then ManagerAuthorityClass.accepted_execution_evidence
    else if contains record_kind coordination_kind_set
    then ManagerAuthorityClass.coordination_record
    else if contains record_kind operations_dry_run_kind_set
    then ManagerAuthorityClass.operations_dry_run_record
    else if contains record_kind generated_projection_kind_set
    then ManagerAuthorityClass.generated_projection
    else if contains record_kind graph_checkpoint_kind_set
    then ManagerAuthorityClass.graph_checkpoint
    else if contains record_kind carrier_context_kind_set
    then ManagerAuthorityClass.carrier_context
    else if contains record_kind human_override_kind_set
    then ManagerAuthorityClass.human_override_context
    else if requested_promotion == "source_authority"
    then ManagerAuthorityClass.unknown
    else ManagerAuthorityClass.manager_planning_record

abbrev promotion_kind : ManagerAuthorityClass → ManagerIssueKind
promotion_kind ManagerAuthorityClass.generated_projection =
    ManagerIssueKind.generated_output_authority_promotion
promotion_kind ManagerAuthorityClass.graph_checkpoint =
    ManagerIssueKind.graph_checkpoint_authority_promotion
promotion_kind ManagerAuthorityClass.operations_dry_run_record =
    ManagerIssueKind.dry_run_to_live_control_promotion
promotion_kind other = ManagerIssueKind.missing_source_authority

unfoldable pub promotion_issue_for_authority_class : ManagerAuthorityClass → String → ManagerIssue
unfolding manager_authority_class_value
promotion_issue_for_authority_class authority_class field_name =
    manager_issue (promotion_kind authority_class) ManagerIssueSeverity.refused
      (manager_authority_class_value authority_class
        <> " cannot be promoted to source or dispatch authority")
      (some field_name)

unfoldable pub validate_manager_authority_classification :
    String → String → String → Bool → Bool → Bool → ManagerAuthorityClassification
unfolding classify_manager_record_authority promotion_issue_for_authority_class
validate_manager_authority_classification record_ref record_kind requested_promotion
      source_authority_promoted dispatch_authorized live_effect_performed =
    let authority_class = classify_manager_record_authority record_kind requested_promotion in
    record {
      record_ref = record_ref;
      record_kind = record_kind;
      authority_class = authority_class;
      issues =
          only_if (is_empty_text record_ref) (
            manager_issue ManagerIssueKind.missing_field ManagerIssueSeverity.fault
              "record_ref is required" (some "record_ref"))
          ++ (only_if
                ((requested_promotion == "source_authority")
                  && not (in_promotable_to_source_authority_set authority_class))
                (promotion_issue_for_authority_class authority_class "requested_promotion")
              ++ (only_if
                    (source_authority_promoted
                      && not (in_promotable_to_source_authority_set authority_class))
                    (promotion_issue_for_authority_class authority_class
                      "source_authority_promoted")
                  ++ (only_if dispatch_authorized (
                        manager_issue ManagerIssueKind.dispatch_requested
                          ManagerIssueSeverity.refused
                          "manager authority classification may not authorize dispatch"
                          (some "dispatch_authorized"))
                      ++ only_if live_effect_performed (
                          manager_issue ManagerIssueKind.live_effect_requested
                            ManagerIssueSeverity.refused
                            "manager authority classification may not perform live effects"
                            (some "live_effect_performed")))));
      source_authority_promoted = false;
      dispatch_authorized = false;
      live_effect_performed = false;
    }
