-- ===== src/Coordination/Mailbox/Parts.antt =====
-- The constructor from keyword arguments of src/langsop/coordination/mailbox.py.
use lang_sop.Coordination.Mailbox.Records.{MailboxCarrierEnvelope}
use lang_sop.Coordination.Mailbox.Vocabulary.{
  CarrierAuthorityStatus, MailboxFreshnessState, carrier_authority_status_value,
  mailbox_freshness_state_value,
}
use lang_sop.Base.{Bool, List, Option, String, [], ℕ, ◌∷◌}
use lang_sop.Records.{member}
use lang_sop.Operators.Values.{Converted, value, ◌>>=◌}

abbrev pub mailbox_freshness_state_members : List MailboxFreshnessState
mailbox_freshness_state_members =
    MailboxFreshnessState.fresh ∷ MailboxFreshnessState.pending_review ∷ MailboxFreshnessState.stale
    ∷ MailboxFreshnessState.unknown ∷ []

abbrev pub carrier_authority_status_members : List CarrierAuthorityStatus
carrier_authority_status_members =
    CarrierAuthorityStatus.carrier_context_only ∷ CarrierAuthorityStatus.refused_authority_promotion
    ∷ []

-- The arguments of `mailbox_carrier_envelope_from_parts`. A member of an enumeration is given by its text.
pub record MailboxCarrierParts : Type 0 where
  pub message_ref : String
  pub carrier_surface : String
  pub sender_ref : String
  pub addressed_to_ref : String
  pub authority_notice_ref : String
  pub freshness_state : String
  pub required_route_set : List String
  pub forbidden_action_set : List String
  pub carrier_authority_status : String
  pub related_claim_ref_set : List String
  pub mailbox_last_modified_ms : Option ℕ
  pub read_cursor_ms : Option ℕ
  pub attempted_effect_set : List String
  pub mailbox_io_requested : Bool
  pub carrier_claimed_as_authority : Bool

unfoldable pub mailbox_carrier_envelope_from_parts :
    MailboxCarrierParts → Converted MailboxCarrierEnvelope
unfolding member mailbox_freshness_state_value carrier_authority_status_value
mailbox_carrier_envelope_from_parts p = do
  freshness_state_member ←
      member mailbox_freshness_state_value "MailboxFreshnessState" mailbox_freshness_state_members
        p.freshness_state
  carrier_authority_status_member ←
      member carrier_authority_status_value "CarrierAuthorityStatus"
        carrier_authority_status_members p.carrier_authority_status
  value (record {
    message_ref = p.message_ref;
    carrier_surface = p.carrier_surface;
    sender_ref = p.sender_ref;
    addressed_to_ref = p.addressed_to_ref;
    authority_notice_ref = p.authority_notice_ref;
    carrier_authority_status = carrier_authority_status_member;
    freshness_state = freshness_state_member;
    required_route_set = p.required_route_set;
    forbidden_action_set = p.forbidden_action_set;
    related_claim_ref_set = p.related_claim_ref_set;
    mailbox_last_modified_ms = p.mailbox_last_modified_ms;
    read_cursor_ms = p.read_cursor_ms;
    attempted_effect_set = p.attempted_effect_set;
    mailbox_io_requested = p.mailbox_io_requested;
    carrier_claimed_as_authority = p.carrier_claimed_as_authority;
  })
