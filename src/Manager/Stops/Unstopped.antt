-- ===== src/Manager/Stops/Unstopped.antt =====
-- Which cycles have no reason to stop.
use lang_sop.Base.{
  ap, false_of_not, not_of_false, ◌≡◌, refl, ◌∙◌, sym, ◌↔◌, ◌≢◌, String, Bool, true, false, not,
  ◌&&◌, ◌||◌, ◌==◌, eq_iff, Option, none, some, [], ◌∷◌, contains, none_iff, is_empty_text, is_some,
  arith, Bool-cases, inl, inr, if◌then◌else◌,
}
use lang_sop.Text.{has_part, lower}
use lang_sop.Manager.Vocabulary.{ManagerFreshnessState, manager_freshness_state_value}
use lang_sop.Manager.Records.{ManagerCycleInput}
use lang_sop.Manager.Stops.{
  first_stop_projection, requests_forbidden_live_scope, live_control_effect_marker_set,
}

is_some-if {ℓ} :
    {A : Type ℓ} (b : Bool) (a : A) (o : Option A)
    → is_some (if b then some a else o) ≡ (b || is_some o)
is_some-if true a o = refl
is_some-if false a o = refl

-- The reasons to stop, in the order of the code.
abbrev has_stop : ManagerCycleInput → Bool
has_stop cycle =
    (contains cycle.source_authority_state ("accepted_but_stale" ∷ "stale" ∷ [])
      || (manager_freshness_state_value cycle.freshness_state == "stale"))
    || (contains cycle.support_state ("missing_required_support" ∷ "missing" ∷ "unsupported" ∷ [])
        || (contains cycle.coordination_state ("contested_by_active_claim" ∷ "contested" ∷ [])
            || ((not (is_empty_text cycle.carrier_context_kind)
                  || (cycle.carrier_context_state == "informative_only"))
                || ((cycle.requested_effect_classification_state == "missing")
                    || (((cycle.operations_dry_run_state == "success")
                          && contains cycle.requested_promotion
                              ("dispatch_authority" ∷ "live_control" ∷ []))
                        || ((not (is_empty_text cycle.human_override_state)
                              && not
                                  (cycle.human_override_state == "present_fresh_scoped_revocable"))
                            || ((cycle.human_override_state == "present_fresh_scoped_revocable")
                                || ((not (is_empty_text cycle.generated_projection_state)
                                      && (cycle.requested_promotion == "source_authority"))
                                    || ((not (is_empty_text cycle.graph_checkpoint_state)
                                          && (cycle.requested_promotion == "source_authority"))
                                        || (requests_forbidden_live_scope cycle || false))))))))))

is_some-first_stop_projection :
    (cycle : ManagerCycleInput) → is_some (first_stop_projection cycle) ≡ has_stop cycle
unfolding first_stop_projection
is_some-first_stop_projection cycle = simp (is_some-if)

-- A cycle whose inputs are neither stale, unsupported nor contested, which has no carrier context and no
-- human override, and which promotes nothing and asks for no live scope.
pub record IsUnstopped (cycle : ManagerCycleInput) : Type 0 where
  pub source : contains cycle.source_authority_state ("accepted_but_stale" ∷ "stale" ∷ []) ≡ false
  pub freshness : cycle.freshness_state ≢ ManagerFreshnessState.stale
  pub supported :
      contains cycle.support_state ("missing_required_support" ∷ "missing" ∷ "unsupported" ∷ [])
      ≡ false
  pub uncontested :
      contains cycle.coordination_state ("contested_by_active_claim" ∷ "contested" ∷ []) ≡ false
  pub no_carrier : is_empty_text cycle.carrier_context_kind ≡ true
  pub no_information : (cycle.carrier_context_state == "informative_only") ≡ false
  pub classified : (cycle.requested_effect_classification_state == "missing") ≡ false
  pub dry_run :
      ((cycle.operations_dry_run_state == "success")
        && contains cycle.requested_promotion ("dispatch_authority" ∷ "live_control" ∷ []))
      ≡ false
  pub no_override : is_empty_text cycle.human_override_state ≡ true
  pub no_projection :
      (not (is_empty_text cycle.generated_projection_state)
        && (cycle.requested_promotion == "source_authority"))
      ≡ false
  pub no_checkpoint :
      (not (is_empty_text cycle.graph_checkpoint_state)
        && (cycle.requested_promotion == "source_authority"))
      ≡ false
  pub no_live_scope :
      contains cycle.live_authority_state ("missing" ∷ "absent" ∷ "" ∷ []) ≡ true
      → (marker : String) → contains marker live_control_effect_marker_set ≡ true
      → has_part (lower cycle.requested_effect_kind) marker ≡ false

stale_iff :
    (f : ManagerFreshnessState)
    → ((manager_freshness_state_value f == "stale") ≡ false) ↔ (f ≢ ManagerFreshnessState.stale)
unfolding manager_freshness_state_value
stale_iff ManagerFreshnessState.stale = (λ h. cc, λ n. absurd (n refl))
stale_iff ManagerFreshnessState.fresh = (λ h e. cc, λ n. refl)
stale_iff ManagerFreshnessState.unknown = (λ h e. cc, λ n. refl)
stale_iff ManagerFreshnessState.contested = (λ h e. cc, λ n. refl)
stale_iff ManagerFreshnessState.blocked = (λ h e. cc, λ n. refl)
stale_iff ManagerFreshnessState.interrupted = (λ h e. cc, λ n. refl)
stale_iff ManagerFreshnessState.faulted = (λ h e. cc, λ n. refl)
stale_iff ManagerFreshnessState.pending_review = (λ h e. cc, λ n. refl)

absurd_true {ℓ} : {A : Type ℓ} → false ≡ true → A
absurd_true h = cc

not_present :
    (s : String) → is_empty_text s ≡ true → (s == "present_fresh_scoped_revocable") ≡ false
not_present s h = elim (Bool-cases (s == "present_fresh_scoped_revocable")) [
  | inl e ↦
      absurd_true (sym (ap is_empty_text ((eq_iff s "present_fresh_scoped_revocable").0 e)) ∙ h)
  | inr e ↦ e
]

neither : {a b : Bool} → (a || b) ≡ false → (a ≡ false) × (b ≡ false)
neither {a} {b} h = ground arith

empty_of : {a b : Bool} → (not a && not b) ≡ false → b ≡ false → a ≡ true
empty_of {a} {b} h k = ground arith

empty_of_not : {a : Bool} → not a ≡ false → a ≡ true
empty_of_not {a} h = ground arith

live_scope_iff :
    (cycle : ManagerCycleInput)
    → (requests_forbidden_live_scope cycle ≡ false) ↔ (
        contains cycle.live_authority_state ("missing" ∷ "absent" ∷ "" ∷ []) ≡ true
        → (marker : String) → contains marker live_control_effect_marker_set ≡ true
        → has_part (lower cycle.requested_effect_kind) marker ≡ false)
unfolding requests_forbidden_live_scope
live_scope_iff cycle =
    let markers =
      none_iff (λ m. has_part (lower cycle.requested_effect_kind) m)
        live_control_effect_marker_set in
    elim (Bool-cases (contains cycle.live_authority_state ("missing" ∷ "absent" ∷ "" ∷ []))) [
      | inl e ↦ rw e (λ h t. markers.0 (not_of_false h), λ f. false_of_not (markers.1 (f refl)))
      | inr e ↦ rw e (λ h t. absurd_true t, λ f. refl)
    ]

pub is_some-none {ℓ} : {A : Type ℓ} (o : Option A) → (o ≡ none) ↔ (is_some o ≡ false)
is_some-none none = (λ h. refl, λ h. refl)
is_some-none (some a) = (λ h. ap is_some h, λ h. cc)

IsUnstopped-tests : (cycle : ManagerCycleInput) → has_stop cycle ≡ false → IsUnstopped cycle
IsUnstopped-tests cycle h =
    let (stale, t) = neither h in
    let (source, fresh) = neither stale in
    let (supported, t) = neither t in
    let (uncontested, t) = neither t in
    let (carrier, t) = neither t in
    let (no_carrier, no_information) = neither carrier in
    let (classified, t) = neither t in
    let (dry_run, t) = neither t in
    let (override, t) = neither t in
    let (present, t) = neither t in
    let (projection, t) = neither t in
    let (checkpoint, t) = neither t in
    let (live, t) = neither t in
    record {
      source = source;
      freshness = (stale_iff cycle.freshness_state).0 fresh;
      supported = supported;
      uncontested = uncontested;
      no_carrier = empty_of_not no_carrier;
      no_information = no_information;
      classified = classified;
      dry_run = dry_run;
      no_override = empty_of override present;
      no_projection = projection;
      no_checkpoint = checkpoint;
      no_live_scope = (live_scope_iff cycle).0 live;
    }

tests-IsUnstopped : (cycle : ManagerCycleInput) → IsUnstopped cycle → has_stop cycle ≡ false
tests-IsUnstopped cycle u =
    rw
      (
        u.source,
        (stale_iff cycle.freshness_state).1 u.freshness,
        u.supported,
        u.uncontested,
        u.no_carrier,
        u.no_information,
        u.classified,
        u.dry_run,
        u.no_override,
        not_present cycle.human_override_state u.no_override,
        u.no_projection,
        u.no_checkpoint,
        (live_scope_iff cycle).1 u.no_live_scope,
      )
      refl

-- A cycle has no reason to stop exactly when it is unstopped.
pub first_stop_projection-IsUnstopped :
    (cycle : ManagerCycleInput) → (first_stop_projection cycle ≡ none) ↔ IsUnstopped cycle
first_stop_projection-IsUnstopped cycle =
    let same = is_some-first_stop_projection cycle in
    let absent = is_some-none (first_stop_projection cycle) in
    (
      λ h. IsUnstopped-tests cycle (sym same ∙ absent.0 h),
      λ u. absent.1 (same ∙ tests-IsUnstopped cycle u),
    )
