-- ===== src/Coordination/Mailbox/Context.antt =====
-- Which mailbox carriers are accepted: those that are context and nothing more.
use mathlib.Core.Bool.{not-not}
use lang_sop.Base.{
  ◌≡◌, refl, ◌∙◌, sym, ap, ◌↔◌, String, Bool, true, false, not, ◌&&◌, ◌||◌, List, all, contains,
  is_empty, is_empty_text, is_empty-append, is_empty-only_if, is_empty-map, all_iff, both,
  false_of_not, not_of_false, arith,
}
use lang_sop.Records.{lacks_text}
use lang_sop.Text.Sets.{distinct, intersection}
use lang_sop.Text.Sets.Laws.{avoids_iff}
use lang_sop.Coordination.Mailbox.Vocabulary.{
  CarrierAuthorityStatus, carrier_authority_status_is_carrier_context_only,
  claim_transition_effect_set, dispatch_effect_set, live_control_effect_set, mailbox_io_effect_set,
  required_mailbox_carrier_field_set,
}
use lang_sop.Coordination.Mailbox.Records.{MailboxCarrierEnvelope, mailbox_carrier_envelope_texts}
use lang_sop.Coordination.Mailbox.{validate_mailbox_carrier_envelope}

-- An effect that no carrier may attempt.
abbrev pub is_forbidden : String → Bool
is_forbidden k =
    contains k mailbox_io_effect_set
    || (contains k claim_transition_effect_set
        || (contains k dispatch_effect_set || contains k live_control_effect_set))

-- A carrier with its texts and a notice that is mere context and attempts no forbidden effect.
pub record IsContext (e : MailboxCarrierEnvelope) : Type 0 where
  pub texts :
      (name : String)
      → contains name required_mailbox_carrier_field_set ≡ true
      → lacks_text (mailbox_carrier_envelope_texts e) name ≡ false
  pub noticed : is_empty_text e.authority_notice_ref ≡ false
  pub unclaimed : e.carrier_claimed_as_authority ≡ false
  pub context_only : e.carrier_authority_status ≡ CarrierAuthorityStatus.carrier_context_only
  pub no_mailbox_io : e.mailbox_io_requested ≡ false
  pub effects : (k : String) → contains k e.attempted_effect_set ≡ true → is_forbidden k ≡ false

abbrev avoids : MailboxCarrierEnvelope → List String → Bool
avoids e set = is_empty (intersection (distinct e.attempted_effect_set) set)

-- The tests for an issue, each negated, in the order of the code.
abbrev context_tests : MailboxCarrierEnvelope → Bool
context_tests e =
    all (λ name. not (lacks_text (mailbox_carrier_envelope_texts e) name))
      required_mailbox_carrier_field_set
    && (not (is_empty_text e.authority_notice_ref)
        && (not (
              e.carrier_claimed_as_authority
              || not (carrier_authority_status_is_carrier_context_only e.carrier_authority_status))
            && (not (e.mailbox_io_requested || not (avoids e mailbox_io_effect_set))
                && (avoids e claim_transition_effect_set
                    && (avoids e dispatch_effect_set && avoids e live_control_effect_set)))))

accepted-tests :
    (e : MailboxCarrierEnvelope) → (validate_mailbox_carrier_envelope e).accepted ≡ context_tests e
unfolding validate_mailbox_carrier_envelope all
accepted-tests e = simp (is_empty-append, is_empty-only_if, is_empty-map, not-not)

neither : {a b : Bool} → not (a || not b) ≡ true → (a ≡ false) × (b ≡ true)
neither {a} {b} h = ground arith

status_lem :
    (s : CarrierAuthorityStatus)
    → carrier_authority_status_is_carrier_context_only s ≡ true
    → s ≡ CarrierAuthorityStatus.carrier_context_only
status_lem s h = ground arith

permitted_lem :
    (a b c d : Bool)
    → a ≡ false
    → b ≡ false
    → c ≡ false
    → d ≡ false
    → (a || (b || (c || d))) ≡ false
permitted_lem a b c d h i j k = ground arith

apart_lem :
    (a b c d : Bool)
    → (a || (b || (c || d))) ≡ false
    → (a ≡ false) × (b ≡ false) × (c ≡ false) × (d ≡ false)
apart_lem a b c d h = ground arith

module _ (e : MailboxCarrierEnvelope) where
  avoid_iff :
      (set : List String)
      → (avoids e set ≡ true)
        ↔ ((k : String) → contains k e.attempted_effect_set ≡ true → contains k set ≡ false)
  avoid_iff set = avoids_iff e.attempted_effect_set set

  IsContext-tests : context_tests e ≡ true → IsContext e
  IsContext-tests h =
      let (texts, t) = both h in
      let (noticed, t) = both t in
      let (authority, t) = both t in
      let (unclaimed, context_only) = neither authority in
      let (io, t) = both t in
      let (requested, mailbox) = neither io in
      let (claims, t) = both t in
      let (dispatch, live) = both t in
      record {
        texts = λ name m. false_of_not (
            (all_iff (λ n. not (lacks_text (mailbox_carrier_envelope_texts e) n))
                required_mailbox_carrier_field_set).0
              texts name m);
        noticed = false_of_not noticed;
        unclaimed = unclaimed;
        context_only = status_lem e.carrier_authority_status context_only;
        no_mailbox_io = requested;
        effects = λ k m.
            permitted_lem (contains k mailbox_io_effect_set)
              (contains k claim_transition_effect_set) (contains k dispatch_effect_set)
              (contains k live_control_effect_set) ((avoid_iff mailbox_io_effect_set).0 mailbox k m)
              ((avoid_iff claim_transition_effect_set).0 claims k m)
              ((avoid_iff dispatch_effect_set).0 dispatch k m)
              ((avoid_iff live_control_effect_set).0 live k m);
      }

  tests-IsContext : IsContext e → context_tests e ≡ true
  tests-IsContext c =
      let apart = λ (k : String) (m : contains k e.attempted_effect_set ≡ true).
        apart_lem (contains k mailbox_io_effect_set) (contains k claim_transition_effect_set)
          (contains k dispatch_effect_set) (contains k live_control_effect_set) (c.effects k m) in
      rw
        (
          (all_iff (λ n. not (lacks_text (mailbox_carrier_envelope_texts e) n))
                required_mailbox_carrier_field_set).1
              (λ name m. not_of_false (c.texts name m)),
          c.noticed,
          c.unclaimed,
          ap carrier_authority_status_is_carrier_context_only c.context_only,
          c.no_mailbox_io,
          (avoid_iff mailbox_io_effect_set).1 (λ k m. (apart k m).0),
          (avoid_iff claim_transition_effect_set).1 (λ k m. (apart k m).1),
          (avoid_iff dispatch_effect_set).1 (λ k m. (apart k m).2),
          (avoid_iff live_control_effect_set).1 (λ k m. (apart k m).3),
        )
        refl

  -- A mailbox carrier is accepted exactly when it has its texts and a notice, is carrier context only
  -- and not claimed as authority, asks for no mailbox input or output, and attempts no effect of the
  -- four forbidden sets.
  pub validate_mailbox_carrier-IsContext :
      ((validate_mailbox_carrier_envelope e).accepted ≡ true) ↔ IsContext e
  validate_mailbox_carrier-IsContext =
      (λ h. IsContext-tests (sym (accepted-tests e) ∙ h), λ c. accepted-tests e ∙ tests-IsContext c)
