-- ===== src/Tests/Coordination.antt =====
-- The theorems of claims, boundaries, carriers and overrides at small records.
use lang_sop.Base.{some, ◌≡◌, refl, ◌↔◌, true, false, [], ◌∷◌, ◌==◌}
use lang_sop.Coordination.Claims.Vocabulary.{
  ClaimCompatibilityRelation, ClaimFreshnessState, ClaimProjectionStatus, WorkBoundaryStatus,
}
use lang_sop.Coordination.Claims.Records.{ClaimIdentityEnvelope, WorkBoundaryProjectionEnvelope}
use lang_sop.Coordination.Claims.{validate_work_boundary_projection_envelope}
use lang_sop.Coordination.Claims.Boundary.{IsSound, validate_work_boundary-IsSound}
use lang_sop.Coordination.Claims.Compatibility.{classify_claim_compatibility}
use lang_sop.Coordination.Claims.Compatibility.Symmetry.{
  write_scope, classify_claim_compatibility_comm,
}
use lang_sop.Coordination.Claims.Compatibility.Disjoint.{IsDisjoint, compatible-IsDisjoint}
use lang_sop.Coordination.Mailbox.Vocabulary.{CarrierAuthorityStatus, MailboxFreshnessState}
use lang_sop.Coordination.Mailbox.Records.{MailboxCarrierEnvelope}
use lang_sop.Coordination.Mailbox.{validate_mailbox_carrier_envelope}
use lang_sop.Coordination.Mailbox.Context.{IsContext, validate_mailbox_carrier-IsContext}
use lang_sop.Coordination.Reviews.Vocabulary.{CoordinationReviewDecision}
use lang_sop.Coordination.Reviews.Records.{HumanOverrideEnvelope}
use lang_sop.Coordination.Reviews.{review_human_override}
use lang_sop.Coordination.Reviews.Override.{IsPermitted, review_human_override-IsPermitted}

abbrev first_claim : ClaimIdentityEnvelope
first_claim = record {
  claim_id = "claim-1";
  claimant_ref = "";
  conversation_ref = "";
  work_packet_ref = "";
  scope_subject_ref_set = "docs/a.sop" ∷ "docs/b.sop" ∷ [];
  authority_basis_ref_set = [];
  authority_notice_ref = "";
  freshness_state = ClaimFreshnessState.fresh;
  permitted_action_set = [];
  forbidden_action_set = [];
  trust_limit = "";
  claim_status = ClaimProjectionStatus.accepted;
  compatibility_evidence_ref_set = [];
  unresolved_review_ref_set = [];
  generated_projection_claimed_as_authority = false;
  identity_collapse_detected = false;
}

abbrev second_claim : ClaimIdentityEnvelope
second_claim = record {
  claim_id = "claim-2";
  claimant_ref = "";
  conversation_ref = "";
  work_packet_ref = "";
  scope_subject_ref_set = "docs/c.sop" ∷ [];
  authority_basis_ref_set = [];
  authority_notice_ref = "";
  freshness_state = ClaimFreshnessState.fresh;
  permitted_action_set = [];
  forbidden_action_set = [];
  trust_limit = "";
  claim_status = ClaimProjectionStatus.accepted;
  compatibility_evidence_ref_set = [];
  unresolved_review_ref_set = [];
  generated_projection_claimed_as_authority = false;
  identity_collapse_detected = false;
}

claims_are_compatible :
    (classify_claim_compatibility first_claim second_claim [] [] [] []).compatible ≡ true
unfolding classify_claim_compatibility
claims_are_compatible = refl

claims_overlap :
    (classify_claim_compatibility first_claim second_claim [] ("docs/b.sop" ∷ []) [] []).relation
    ≡ ClaimCompatibilityRelation.overlapping_write_scope
unfolding classify_claim_compatibility
claims_overlap = refl

classify_claim_compatibility_comm_example :
    ((classify_claim_compatibility first_claim second_claim [] ("docs/b.sop" ∷ []) [] []).relation
      ≡ (classify_claim_compatibility second_claim first_claim
          ("docs/b.sop" ∷ [])
          []
          []
          []).relation)
    × ((classify_claim_compatibility first_claim second_claim []
          ("docs/b.sop" ∷ [])
          []
          []).compatible
        ≡ (classify_claim_compatibility second_claim first_claim
            ("docs/b.sop" ∷ [])
            []
            []
            []).compatible)
classify_claim_compatibility_comm_example =
    classify_claim_compatibility_comm first_claim second_claim [] ("docs/b.sop" ∷ []) [] []

claims_differ : (first_claim.claim_id == second_claim.claim_id) ≡ false
claims_differ = refl

compatible-IsDisjoint_example :
    ((classify_claim_compatibility first_claim second_claim [] [] [] []).compatible ≡ true)
    ↔ IsDisjoint (write_scope [] first_claim) (write_scope [] second_claim)
compatible-IsDisjoint_example =
    compatible-IsDisjoint first_claim second_claim [] [] [] [] claims_differ

abbrev closed_boundary : WorkBoundaryProjectionEnvelope
closed_boundary = record {
  projection_id = "projection-1";
  claim_ref = "claim-1";
  scope_subject_ref_set = [];
  authority_basis_ref_set = "basis-1" ∷ [];
  authority_notice_ref = "notice-1";
  freshness_state = ClaimFreshnessState.fresh;
  boundary_status = WorkBoundaryStatus.dependency_closed;
  compatibility_relation = ClaimCompatibilityRelation.same_claim;
  required_route_set = "completion_review" ∷ [];
  forbidden_action_set = [];
  blocker_ref_set = [];
  stale_trigger_ref_set = [];
  contested_claim_ref_set = [];
  ambiguous_identity_ref_set = [];
  pending_review_ref_set = [];
  fault_ref_set = [];
  refusal_reason_set = [];
  generated_projection_claimed_as_authority = false;
  source_authority_mutation_requested = false;
}

closed_boundary_is_accepted :
    (validate_work_boundary_projection_envelope closed_boundary).accepted ≡ true
unfolding validate_work_boundary_projection_envelope
closed_boundary_is_accepted = refl

validate_work_boundary-IsSound_example :
    ((validate_work_boundary_projection_envelope closed_boundary).accepted ≡ true)
    ↔ IsSound closed_boundary
validate_work_boundary-IsSound_example = validate_work_boundary-IsSound closed_boundary

abbrev reading_override : HumanOverrideEnvelope
reading_override = record {
  override_ref = "override-1";
  requested_override_scope = "";
  authority_notice_ref = "";
  expiration_or_recheck_condition = "";
  requested_effect_set = "read_report" ∷ [];
  forbidden_effect_set = "dispatch" ∷ [];
  expired = false;
  out_of_scope = false;
}

override_is_granted :
    (review_human_override reading_override).decision ≡ CoordinationReviewDecision.human_override
unfolding review_human_override
override_is_granted = refl

review_human_override-IsPermitted_example :
    ((review_human_override reading_override).decision ≡ CoordinationReviewDecision.human_override)
    ↔ IsPermitted reading_override
review_human_override-IsPermitted_example = review_human_override-IsPermitted reading_override

abbrev notice_carrier : MailboxCarrierEnvelope
notice_carrier = record {
  message_ref = "message-1";
  carrier_surface = "mailbox";
  sender_ref = "sender-1";
  addressed_to_ref = "reader-1";
  authority_notice_ref = "notice-1";
  carrier_authority_status = CarrierAuthorityStatus.carrier_context_only;
  freshness_state = MailboxFreshnessState.fresh;
  required_route_set = [];
  forbidden_action_set = [];
  related_claim_ref_set = [];
  mailbox_last_modified_ms = some 5;
  read_cursor_ms = some 7;
  attempted_effect_set = "inform_review" ∷ [];
  mailbox_io_requested = false;
  carrier_claimed_as_authority = false;
}

notice_carrier_is_accepted : (validate_mailbox_carrier_envelope notice_carrier).accepted ≡ true
unfolding validate_mailbox_carrier_envelope
notice_carrier_is_accepted = refl

validate_mailbox_carrier-IsContext_example :
    ((validate_mailbox_carrier_envelope notice_carrier).accepted ≡ true) ↔ IsContext notice_carrier
validate_mailbox_carrier-IsContext_example = validate_mailbox_carrier-IsContext notice_carrier
