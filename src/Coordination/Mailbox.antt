-- ===== src/Coordination/Mailbox.antt =====
-- src/langsop/coordination/mailbox.py: the freshness of a mailbox and the check of a carrier.
pub mod Vocabulary
pub mod Records
pub mod Parts
pub mod Context
use lang_sop.Coordination.Mailbox.Records.{
  MailboxCarrierEnvelope, MailboxCarrierIssue, MailboxCarrierValidationResult,
  MailboxFreshnessProjection, mailbox_carrier_envelope_texts, mailbox_carrier_issue,
  mailbox_carrier_validation_result, mailbox_freshness_projection,
}
use lang_sop.Coordination.Mailbox.Vocabulary.{
  MailboxCarrierIssueKind, MailboxCarrierIssueSeverity, MailboxFreshnessState,
  carrier_authority_status_is_carrier_context_only, claim_transition_effect_set,
  dispatch_effect_set, live_control_effect_set, mailbox_io_effect_set,
  required_mailbox_carrier_field_set,
}
use lang_sop.Base.{
  Bool, List, Option, String, false, if◌then◌else◌, is_empty, is_empty_text, ltb, map, not, only_if,
  some, true, ℕ, ◌++◌, ◌<>◌, ◌||◌,
}
use lang_sop.Text.Sets.{distinct, intersection}
use lang_sop.Records.{missing_names}

unfoldable pub refusal : MailboxCarrierIssueKind → String → MailboxCarrierIssue
refusal issue_kind reason =
    mailbox_carrier_issue issue_kind MailboxCarrierIssueSeverity.refused reason
      (some "attempted_effect_set")

unfoldable pub validate_mailbox_carrier_envelope :
    MailboxCarrierEnvelope → MailboxCarrierValidationResult
unfolding distinct intersection missing_names refusal
validate_mailbox_carrier_envelope envelope =
    let effects = distinct envelope.attempted_effect_set in
    let issues : List MailboxCarrierIssue =
      map
        (λ field_name.
          mailbox_carrier_issue MailboxCarrierIssueKind.missing_field
            MailboxCarrierIssueSeverity.fault (field_name <> " is required") (some field_name))
        (missing_names (mailbox_carrier_envelope_texts envelope) required_mailbox_carrier_field_set)
      ++ (only_if (is_empty_text envelope.authority_notice_ref) (
            mailbox_carrier_issue MailboxCarrierIssueKind.missing_authority_notice
              MailboxCarrierIssueSeverity.fault
              "authority notice ref is required before carrier projection use"
              (some "authority_notice_ref"))
          ++ (only_if
                (envelope.carrier_claimed_as_authority
                  || not (
                      carrier_authority_status_is_carrier_context_only
                        envelope.carrier_authority_status))
                (mailbox_carrier_issue MailboxCarrierIssueKind.carrier_authority_promotion
                  MailboxCarrierIssueSeverity.fault
                  "mailbox carrier may not be promoted to source authority"
                  (some "carrier_authority_status"))
              ++ (only_if
                    (envelope.mailbox_io_requested
                      || not (is_empty (intersection effects mailbox_io_effect_set)))
                    (refusal MailboxCarrierIssueKind.mailbox_io_requested
                      "mailbox IO is not authorized")
                  ++ (only_if (not (is_empty (intersection effects claim_transition_effect_set))) (
                        refusal MailboxCarrierIssueKind.claim_transition_requested
                          "carrier cannot transition claims")
                      ++ (only_if (not (is_empty (intersection effects dispatch_effect_set))) (
                            refusal MailboxCarrierIssueKind.dispatch_requested
                              "carrier cannot dispatch agents")
                          ++ (only_if
                              (not (is_empty (intersection effects live_control_effect_set)))
                              (refusal MailboxCarrierIssueKind.live_control_requested
                                "carrier cannot control operations"))))))) in
    mailbox_carrier_validation_result (is_empty issues) issues

-- The last two tests, where neither time is missing.
abbrev freshness_of : Option ℕ → Option ℕ → MailboxFreshnessProjection
freshness_of (some last_modified) (some read_cursor) =
    if ltb read_cursor last_modified
    then mailbox_freshness_projection MailboxFreshnessState.pending_review
        "unread mailbox notice is newer than read cursor" true false
    else mailbox_freshness_projection MailboxFreshnessState.fresh
        "read cursor covers mailbox timestamp" false false
freshness_of last_modified read_cursor =
    mailbox_freshness_projection MailboxFreshnessState.unknown
      "mailbox timestamp or read cursor is missing" false true

unfoldable pub classify_mailbox_freshness : Option ℕ → Option ℕ → Bool → MailboxFreshnessProjection
classify_mailbox_freshness mailbox_last_modified_ms read_cursor_ms missing_message_hash =
    if missing_message_hash
    then mailbox_freshness_projection MailboxFreshnessState.stale
        "missing message hash prevents cursor trust" false true
    else freshness_of mailbox_last_modified_ms read_cursor_ms
