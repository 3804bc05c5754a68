-- ===== src/Runtime/Checkpoints.antt =====
-- src/langsop/runtime/checkpoints.py: checkpoint envelopes and the check of one.
pub mod Acceptance
use lang_sop.Base.{
  String, Bool, true, false, not, Option, none, List, [], ◌∷◌, ◌++◌, ◌==◌, only_if, if◌then◌else◌,
}
use lang_sop.Text.Sets.{sorted, same_set}
use lang_sop.Digest.{Digest, text_value, texts_value}
use lang_sop.Runtime.State.{
  GraphIssueKind, GraphIssueSeverity, GraphIssue, issue, GraphValidationResult, result_of,
  non_authority_warning_text,
}

abbrev pub checkpoint_schema_version_text : String
checkpoint_schema_version_text = "ir4-runtime-checkpoint-v1"

pub data CheckpointFreshnessResult : Type 0 where
  current stale checkpoint_authority_confusion : CheckpointFreshnessResult

pub data CheckpointAuthorityResult : Type 0 where
  non_authoritative_execution_state authority_confusion_detected : CheckpointAuthorityResult
  checkpoint_readiness_authority_confusion : CheckpointAuthorityResult

pub data CheckpointResumeCondition : Type 0 where
  not_required rebuild_from_source_authority : CheckpointResumeCondition
  accepted_authority_reconciliation accepted_completion_review_required : CheckpointResumeCondition
  accepted_repair_review_required : CheckpointResumeCondition

pub record CheckpointEnvelope : Type 0 where
  pub checkpoint_id : String
  pub fixture_id : String
  pub active_work_packet_ref : String
  pub freshness_basis_ref_set : List String
  pub graph_phase : String
  pub current_node_id : String
  pub checkpoint_schema_version : String
  pub checkpoint_status : String
  pub presented_as_authority : Bool
  pub claims_readiness : Bool
  pub pending_interrupt_ref : Option String
  pub non_authority_warning : String

pub record CheckpointValidationResult : Type 0 where
  pub checkpoint_freshness_result : CheckpointFreshnessResult
  pub checkpoint_authority_result : CheckpointAuthorityResult
  pub resume_condition : CheckpointResumeCondition
  pub validation : GraphValidationResult

-- `CheckpointValidationResult.accepted`
abbrev pub checkpoint_accepted : CheckpointValidationResult → Bool
checkpoint_accepted r = r.validation.accepted

module _ (digest : Digest) where
  unfoldable pub deterministic_checkpoint_id :
      String → String → List String → String → String → String → String
  unfolding sorted
  deterministic_checkpoint_id fixture_id packet_ref basis phase node version = digest (
      ("active_work_packet_ref", text_value packet_ref)
      ∷ ("checkpoint_schema_version", text_value version)
      ∷ ("current_node_id", text_value node)
      ∷ ("fixture_id", text_value fixture_id)
      ∷ ("freshness_basis_ref_set", texts_value (sorted basis))
      ∷ ("graph_phase", text_value phase)
      ∷ [])

  unfoldable pub build_checkpoint_envelope :
      String
      → String
      → List String
      → String
      → String
      → Bool
      → Bool
      → Option String
      → CheckpointEnvelope
  unfolding deterministic_checkpoint_id
  build_checkpoint_envelope fixture_id packet_ref basis phase node presented claims pending =
      record {
        checkpoint_id =
            deterministic_checkpoint_id fixture_id packet_ref basis phase node
              checkpoint_schema_version_text;
        fixture_id = fixture_id;
        active_work_packet_ref = packet_ref;
        freshness_basis_ref_set = basis;
        graph_phase = phase;
        current_node_id = node;
        checkpoint_schema_version = checkpoint_schema_version_text;
        checkpoint_status = "generated_projection_only";
        presented_as_authority = presented;
        claims_readiness = claims;
        pending_interrupt_ref = pending;
        non_authority_warning = non_authority_warning_text;
      }

-- The local variables of `validate_checkpoint`.
record Checked : Type 0 where
  authority_result : CheckpointAuthorityResult
  freshness_result : CheckpointFreshnessResult
  resume : CheckpointResumeCondition
  issues : List GraphIssue

check_presented : CheckpointEnvelope → Checked → Checked
check_presented c v =
    if c.presented_as_authority
    then record {
      authority_result = authority_confusion_detected;
      freshness_result = checkpoint_authority_confusion;
      resume = accepted_authority_reconciliation;
      issues =
          v.issues
          ++ (issue GraphIssueKind.checkpoint_authority_confusion GraphIssueSeverity.interrupt
                "checkpoint state was presented as source authority" "presented_as_authority"
              ∷ []);
    }
    else v

check_claims : CheckpointEnvelope → Checked → Checked
check_claims c v =
    if c.claims_readiness
    then record {
      authority_result = checkpoint_readiness_authority_confusion;
      freshness_result = checkpoint_authority_confusion;
      resume = accepted_completion_review_required;
      issues =
          v.issues
          ++ (issue GraphIssueKind.checkpoint_authority_confusion GraphIssueSeverity.fault
                "checkpoint state attempted to satisfy readiness or gate authority"
                "claims_readiness"
              ∷ []);
    }
    else v

abbrev or_rebuild : CheckpointResumeCondition → CheckpointResumeCondition
or_rebuild not_required = rebuild_from_source_authority
or_rebuild other = other

check_basis : CheckpointEnvelope → List String → Checked → Checked
unfolding same_set
check_basis c basis v =
    if not (same_set c.freshness_basis_ref_set basis)
    then record {
      authority_result = v.authority_result;
      freshness_result = stale;
      resume = or_rebuild v.resume;
      issues =
          v.issues
          ++ (issue GraphIssueKind.stale_projection GraphIssueSeverity.stale
                "checkpoint freshness basis does not match accepted source state"
                "freshness_basis_ref_set"
              ∷ []);
    }
    else v

check_status : CheckpointEnvelope → Checked → Checked
check_status c v =
    if not (c.checkpoint_status == "generated_projection_only")
    then record {
      authority_result = authority_confusion_detected;
      freshness_result = checkpoint_authority_confusion;
      resume = accepted_repair_review_required;
      issues =
          v.issues
          ++ (issue GraphIssueKind.generated_authority GraphIssueSeverity.fault
                "checkpoint status must remain generated_projection_only" "checkpoint_status"
              ∷ []);
    }
    else v

abbrev unchecked : Checked
unchecked = record {
  authority_result = non_authoritative_execution_state;
  freshness_result = current;
  resume = not_required;
  issues = [];
}

unfoldable pub validate_checkpoint : CheckpointEnvelope → List String → CheckpointValidationResult
unfolding check_presented check_claims check_basis check_status
validate_checkpoint c basis =
    let v = check_status c (check_basis c basis (check_claims c (check_presented c unchecked))) in
    record {
      checkpoint_freshness_result = v.freshness_result;
      checkpoint_authority_result = v.authority_result;
      resume_condition = v.resume;
      validation = result_of v.issues;
    }
