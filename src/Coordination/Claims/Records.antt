-- ===== src/Coordination/Claims/Records.antt =====
-- The records of src/langsop/coordination/claims.py and their properties.
use lang_sop.Coordination.Claims.Vocabulary.{
  ClaimCompatibilityRelation, ClaimFreshnessState, ClaimIssueKind, ClaimIssueSeverity,
  ClaimProjectionStatus, WorkBoundaryStatus, claim_issue_severity_is_blocked,
  claim_issue_severity_is_fault, claim_issue_severity_is_interrupt, claim_issue_severity_is_refused,
  claim_issue_severity_is_stale, work_boundary_status_is_dependency_closed,
}
use lang_sop.Base.{Bool, List, Option, String, [], any, is_empty, not, ◌||◌, ◌∷◌}
use lang_sop.Records.{Dict}

pub record ClaimValidationIssue : Type 0 where
  pub issue_kind : ClaimIssueKind
  pub severity : ClaimIssueSeverity
  pub reason : String
  pub field_name : Option String

abbrev pub claim_validation_issue :
    ClaimIssueKind → ClaimIssueSeverity → String → Option String → ClaimValidationIssue
claim_validation_issue issue_kind severity reason field_name = record {
  issue_kind = issue_kind;
  severity = severity;
  reason = reason;
  field_name = field_name;
}

pub record ClaimValidationResult : Type 0 where
  pub accepted : Bool
  pub issues : List ClaimValidationIssue

abbrev pub claim_validation_result : Bool → List ClaimValidationIssue → ClaimValidationResult
claim_validation_result accepted' issues = record { accepted = accepted'; issues = issues }

pub record ClaimIdentityEnvelope : Type 0 where
  pub claim_id : String
  pub claimant_ref : String
  pub conversation_ref : String
  pub work_packet_ref : String
  pub scope_subject_ref_set : List String
  pub authority_basis_ref_set : List String
  pub authority_notice_ref : String
  pub freshness_state : ClaimFreshnessState
  pub permitted_action_set : List String
  pub forbidden_action_set : List String
  pub trust_limit : String
  pub claim_status : ClaimProjectionStatus
  pub compatibility_evidence_ref_set : List String
  pub unresolved_review_ref_set : List String
  pub generated_projection_claimed_as_authority : Bool
  pub identity_collapse_detected : Bool

abbrev pub claim_identity_envelope_texts : ClaimIdentityEnvelope → Dict
claim_identity_envelope_texts e =
    ("claim_id", e.claim_id)
    ∷ ("claimant_ref", e.claimant_ref)
    ∷ ("conversation_ref", e.conversation_ref)
    ∷ ("work_packet_ref", e.work_packet_ref)
    ∷ ("authority_notice_ref", e.authority_notice_ref)
    ∷ ("trust_limit", e.trust_limit)
    ∷ []

pub record WorkBoundaryProjectionEnvelope : Type 0 where
  pub projection_id : String
  pub claim_ref : String
  pub scope_subject_ref_set : List String
  pub authority_basis_ref_set : List String
  pub authority_notice_ref : String
  pub freshness_state : ClaimFreshnessState
  pub boundary_status : WorkBoundaryStatus
  pub compatibility_relation : ClaimCompatibilityRelation
  pub required_route_set : List String
  pub forbidden_action_set : List String
  pub blocker_ref_set : List String
  pub stale_trigger_ref_set : List String
  pub contested_claim_ref_set : List String
  pub ambiguous_identity_ref_set : List String
  pub pending_review_ref_set : List String
  pub fault_ref_set : List String
  pub refusal_reason_set : List String
  pub generated_projection_claimed_as_authority : Bool
  pub source_authority_mutation_requested : Bool

abbrev pub work_boundary_projection_envelope_texts : WorkBoundaryProjectionEnvelope → Dict
work_boundary_projection_envelope_texts e =
    ("projection_id", e.projection_id)
    ∷ ("claim_ref", e.claim_ref)
    ∷ ("authority_notice_ref", e.authority_notice_ref)
    ∷ []

pub record ClaimCompatibilityResult : Type 0 where
  pub relation : ClaimCompatibilityRelation
  pub compatible : Bool
  pub reason : String
  pub involved_claim_ref_set : List String

abbrev pub claim_compatibility_result :
    ClaimCompatibilityRelation → Bool → String → List String → ClaimCompatibilityResult
claim_compatibility_result relation compatible reason involved_claim_ref_set = record {
  relation = relation;
  compatible = compatible;
  reason = reason;
  involved_claim_ref_set = involved_claim_ref_set;
}

unfoldable pub has_fault : ClaimValidationResult → Bool
unfolding any
has_fault e = any (λ issue. claim_issue_severity_is_fault issue.severity) e.issues

unfoldable pub has_blocker : ClaimValidationResult → Bool
unfolding any
has_blocker e = any (λ issue. claim_issue_severity_is_blocked issue.severity) e.issues

unfoldable pub has_stale : ClaimValidationResult → Bool
unfolding any
has_stale e = any (λ issue. claim_issue_severity_is_stale issue.severity) e.issues

unfoldable pub has_interrupt : ClaimValidationResult → Bool
unfolding any
has_interrupt e = any (λ issue. claim_issue_severity_is_interrupt issue.severity) e.issues

unfoldable pub has_refusal : ClaimValidationResult → Bool
unfolding any
has_refusal e = any (λ issue. claim_issue_severity_is_refused issue.severity) e.issues

unfoldable pub is_dependency_closed : WorkBoundaryProjectionEnvelope → Bool
is_dependency_closed e = work_boundary_status_is_dependency_closed e.boundary_status

unfoldable pub stop_evidence_present : WorkBoundaryProjectionEnvelope → Bool
stop_evidence_present e =
    not (is_empty e.blocker_ref_set)
    || (not (is_empty e.stale_trigger_ref_set)
        || (not (is_empty e.contested_claim_ref_set)
            || (not (is_empty e.ambiguous_identity_ref_set)
                || (not (is_empty e.pending_review_ref_set)
                    || (not (is_empty e.fault_ref_set) || not (is_empty e.refusal_reason_set))))))
