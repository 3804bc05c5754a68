-- ===== src/Coordination/Reviews/Records.antt =====
-- The records of src/langsop/coordination/reviews.py, and the constructors from keyword arguments.
use lang_sop.Coordination.Reviews.Vocabulary.{
  CoordinationReviewDecision, CoordinationReviewIssueKind, CoordinationReviewIssueSeverity,
  coordination_review_decision_is_proceed,
}
use lang_sop.Base.{Bool, List, String}

pub record CoordinationReviewIssue : Type 0 where
  pub issue_kind : CoordinationReviewIssueKind
  pub severity : CoordinationReviewIssueSeverity
  pub reason : String
  pub evidence_ref_set : List String

abbrev pub coordination_review_issue :
    CoordinationReviewIssueKind
    → CoordinationReviewIssueSeverity
    → String
    → List String
    → CoordinationReviewIssue
coordination_review_issue issue_kind severity reason evidence_ref_set = record {
  issue_kind = issue_kind;
  severity = severity;
  reason = reason;
  evidence_ref_set = evidence_ref_set;
}

pub record CoordinationReviewResult : Type 0 where
  pub decision : CoordinationReviewDecision
  pub issue_set : List CoordinationReviewIssue
  pub required_route_set : List String
  pub forbidden_effect_set : List String
  pub authority_notice_ref : String

abbrev pub coordination_review_result :
    CoordinationReviewDecision
    → List CoordinationReviewIssue
    → List String
    → List String
    → String
    → CoordinationReviewResult
coordination_review_result decision issue_set required_route_set forbidden_effect_set
      authority_notice_ref =
    record {
      decision = decision;
      issue_set = issue_set;
      required_route_set = required_route_set;
      forbidden_effect_set = forbidden_effect_set;
      authority_notice_ref = authority_notice_ref;
    }

pub record CoordinationConflictContext : Type 0 where
  pub involved_claim_ref_set : List String
  pub contested_claim_ref_set : List String
  pub stale_claim_ref_set : List String
  pub ambiguous_identity_ref_set : List String
  pub hidden_scope_expansion_ref_set : List String
  pub pending_human_override_ref_set : List String
  pub authority_notice_ref : String

pub record HumanOverrideEnvelope : Type 0 where
  pub override_ref : String
  pub requested_override_scope : String
  pub authority_notice_ref : String
  pub expiration_or_recheck_condition : String
  pub requested_effect_set : List String
  pub forbidden_effect_set : List String
  pub expired : Bool
  pub out_of_scope : Bool

unfoldable pub accepted : CoordinationReviewResult → Bool
accepted e = coordination_review_decision_is_proceed e.decision

unfoldable pub coordination_conflict_context_from_parts :
    List String
    → List String
    → List String
    → List String
    → List String
    → List String
    → String
    → CoordinationConflictContext
coordination_conflict_context_from_parts involved_claim_ref_set contested_claim_ref_set
      stale_claim_ref_set ambiguous_identity_ref_set hidden_scope_expansion_ref_set
      pending_human_override_ref_set authority_notice_ref =
    record {
      involved_claim_ref_set = involved_claim_ref_set;
      contested_claim_ref_set = contested_claim_ref_set;
      stale_claim_ref_set = stale_claim_ref_set;
      ambiguous_identity_ref_set = ambiguous_identity_ref_set;
      hidden_scope_expansion_ref_set = hidden_scope_expansion_ref_set;
      pending_human_override_ref_set = pending_human_override_ref_set;
      authority_notice_ref = authority_notice_ref;
    }

unfoldable pub human_override_envelope_from_parts :
    String
    → String
    → String
    → String
    → List String
    → List String
    → Bool
    → Bool
    → HumanOverrideEnvelope
human_override_envelope_from_parts override_ref requested_override_scope authority_notice_ref
      expiration_or_recheck_condition requested_effect_set forbidden_effect_set expired
      out_of_scope =
    record {
      override_ref = override_ref;
      requested_override_scope = requested_override_scope;
      authority_notice_ref = authority_notice_ref;
      expiration_or_recheck_condition = expiration_or_recheck_condition;
      requested_effect_set = requested_effect_set;
      forbidden_effect_set = forbidden_effect_set;
      expired = expired;
      out_of_scope = out_of_scope;
    }
