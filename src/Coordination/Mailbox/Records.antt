-- ===== src/Coordination/Mailbox/Records.antt =====
-- The records of src/langsop/coordination/mailbox.py. Times are milliseconds since the epoch.
use lang_sop.Coordination.Mailbox.Vocabulary.{
  CarrierAuthorityStatus, MailboxCarrierIssueKind, MailboxCarrierIssueSeverity,
  MailboxFreshnessState, mailbox_carrier_issue_severity_is_blocked,
  mailbox_carrier_issue_severity_is_fault, mailbox_carrier_issue_severity_is_refused,
}
use lang_sop.Base.{Bool, List, Option, String, [], any, ℕ, ◌∷◌}
use lang_sop.Records.{Dict}

pub record MailboxCarrierIssue : Type 0 where
  pub issue_kind : MailboxCarrierIssueKind
  pub severity : MailboxCarrierIssueSeverity
  pub reason : String
  pub field_name : Option String

abbrev pub mailbox_carrier_issue :
    MailboxCarrierIssueKind
    → MailboxCarrierIssueSeverity
    → String
    → Option String
    → MailboxCarrierIssue
mailbox_carrier_issue issue_kind severity reason field_name = record {
  issue_kind = issue_kind;
  severity = severity;
  reason = reason;
  field_name = field_name;
}

pub record MailboxCarrierValidationResult : Type 0 where
  pub accepted : Bool
  pub issues : List MailboxCarrierIssue

abbrev pub mailbox_carrier_validation_result :
    Bool → List MailboxCarrierIssue → MailboxCarrierValidationResult
mailbox_carrier_validation_result accepted' issues = record {
  accepted = accepted';
  issues = issues;
}

pub record MailboxFreshnessProjection : Type 0 where
  pub freshness_state : MailboxFreshnessState
  pub reason : String
  pub unread_notice_present : Bool
  pub stale_cursor_present : Bool

abbrev pub mailbox_freshness_projection :
    MailboxFreshnessState → String → Bool → Bool → MailboxFreshnessProjection
mailbox_freshness_projection freshness_state reason unread_notice_present stale_cursor_present =
    record {
      freshness_state = freshness_state;
      reason = reason;
      unread_notice_present = unread_notice_present;
      stale_cursor_present = stale_cursor_present;
    }

pub record MailboxCarrierEnvelope : Type 0 where
  pub message_ref : String
  pub carrier_surface : String
  pub sender_ref : String
  pub addressed_to_ref : String
  pub authority_notice_ref : String
  pub carrier_authority_status : CarrierAuthorityStatus
  pub freshness_state : MailboxFreshnessState
  pub required_route_set : List String
  pub forbidden_action_set : List String
  pub related_claim_ref_set : List String
  pub mailbox_last_modified_ms : Option ℕ
  pub read_cursor_ms : Option ℕ
  pub attempted_effect_set : List String
  pub mailbox_io_requested : Bool
  pub carrier_claimed_as_authority : Bool

abbrev pub mailbox_carrier_envelope_texts : MailboxCarrierEnvelope → Dict
mailbox_carrier_envelope_texts e =
    ("message_ref", e.message_ref)
    ∷ ("carrier_surface", e.carrier_surface)
    ∷ ("sender_ref", e.sender_ref)
    ∷ ("addressed_to_ref", e.addressed_to_ref)
    ∷ ("authority_notice_ref", e.authority_notice_ref)
    ∷ []

unfoldable pub has_refusal : MailboxCarrierValidationResult → Bool
unfolding any
has_refusal e = any (λ issue. mailbox_carrier_issue_severity_is_refused issue.severity) e.issues

unfoldable pub has_fault : MailboxCarrierValidationResult → Bool
unfolding any
has_fault e = any (λ issue. mailbox_carrier_issue_severity_is_fault issue.severity) e.issues

unfoldable pub has_blocker : MailboxCarrierValidationResult → Bool
unfolding any
has_blocker e = any (λ issue. mailbox_carrier_issue_severity_is_blocked issue.severity) e.issues
