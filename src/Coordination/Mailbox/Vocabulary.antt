-- ===== src/Coordination/Mailbox/Vocabulary.antt =====
-- The enumerations and effect sets of src/langsop/coordination/mailbox.py.
use lang_sop.Base.{Bool, List, String, [], false, true, ◌∷◌}

pub data MailboxFreshnessState : Type 0 where
  fresh pending_review stale unknown : MailboxFreshnessState

unfoldable pub mailbox_freshness_state_value : MailboxFreshnessState → String
mailbox_freshness_state_value fresh = "fresh"
mailbox_freshness_state_value pending_review = "pending_review"
mailbox_freshness_state_value stale = "stale"
mailbox_freshness_state_value unknown = "unknown"

pub data CarrierAuthorityStatus : Type 0 where
  carrier_context_only refused_authority_promotion : CarrierAuthorityStatus

unfoldable pub carrier_authority_status_value : CarrierAuthorityStatus → String
carrier_authority_status_value carrier_context_only = "carrier_context_only"
carrier_authority_status_value refused_authority_promotion = "refused_authority_promotion"

pub data MailboxCarrierIssueKind : Type 0 where
  missing_field missing_authority_notice carrier_authority_promotion : MailboxCarrierIssueKind
  mailbox_io_requested claim_transition_requested dispatch_requested : MailboxCarrierIssueKind
  live_control_requested : MailboxCarrierIssueKind

unfoldable pub mailbox_carrier_issue_kind_value : MailboxCarrierIssueKind → String
mailbox_carrier_issue_kind_value missing_field = "missing_field"
mailbox_carrier_issue_kind_value missing_authority_notice = "missing_authority_notice"
mailbox_carrier_issue_kind_value carrier_authority_promotion = "carrier_authority_promotion"
mailbox_carrier_issue_kind_value mailbox_io_requested = "mailbox_io_requested"
mailbox_carrier_issue_kind_value claim_transition_requested = "claim_transition_requested"
mailbox_carrier_issue_kind_value dispatch_requested = "agent_dispatch_requested"
mailbox_carrier_issue_kind_value live_control_requested = "live_machine_control_requested"

pub data MailboxCarrierIssueSeverity : Type 0 where
  blocked stale fault refused : MailboxCarrierIssueSeverity

unfoldable pub mailbox_carrier_issue_severity_value : MailboxCarrierIssueSeverity → String
mailbox_carrier_issue_severity_value blocked = "blocked"
mailbox_carrier_issue_severity_value stale = "stale"
mailbox_carrier_issue_severity_value fault = "fault"
mailbox_carrier_issue_severity_value refused = "refused"

abbrev pub required_mailbox_carrier_field_set : List String
required_mailbox_carrier_field_set =
    "message_ref" ∷ "carrier_surface" ∷ "sender_ref" ∷ "addressed_to_ref" ∷ "authority_notice_ref"
    ∷ "carrier_authority_status" ∷ "freshness_state" ∷ "required_route_set" ∷ "forbidden_action_set"
    ∷ []

abbrev pub claim_transition_effect_set : List String
claim_transition_effect_set =
    "directly_activate_claim" ∷ "activate_claim" ∷ "release_claim" ∷ "supersede_claim"
    ∷ "accept_completion" ∷ "completion_acceptance" ∷ "claim_state_transition" ∷ []

abbrev pub mailbox_io_effect_set : List String
mailbox_io_effect_set =
    "mailbox_file_read" ∷ "mailbox_file_write" ∷ "mailbox_file_create" ∷ "read_cursor_persist"
    ∷ "watch_mailbox_directory" ∷ "platform_mailbox_mutation" ∷ []

abbrev pub dispatch_effect_set : List String
dispatch_effect_set = "assign_agent" ∷ "agent_dispatch" ∷ "dispatch_work" ∷ []

abbrev pub live_control_effect_set : List String
live_control_effect_set =
    "operations_control" ∷ "live_machine_control" ∷ "process_control" ∷ "gpu_control"
    ∷ "model_runtime_control" ∷ []

abbrev pub mailbox_carrier_issue_severity_is_refused : MailboxCarrierIssueSeverity → Bool
mailbox_carrier_issue_severity_is_refused MailboxCarrierIssueSeverity.refused = true
mailbox_carrier_issue_severity_is_refused other = false

abbrev pub mailbox_carrier_issue_severity_is_fault : MailboxCarrierIssueSeverity → Bool
mailbox_carrier_issue_severity_is_fault MailboxCarrierIssueSeverity.fault = true
mailbox_carrier_issue_severity_is_fault other = false

abbrev pub mailbox_carrier_issue_severity_is_blocked : MailboxCarrierIssueSeverity → Bool
mailbox_carrier_issue_severity_is_blocked MailboxCarrierIssueSeverity.blocked = true
mailbox_carrier_issue_severity_is_blocked other = false

abbrev pub carrier_authority_status_is_carrier_context_only : CarrierAuthorityStatus → Bool
carrier_authority_status_is_carrier_context_only CarrierAuthorityStatus.carrier_context_only = true
carrier_authority_status_is_carrier_context_only other = false
