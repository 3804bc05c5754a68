-- ===== src/Operations/Requests/Bounded.antt =====
-- What the classes of effects and targets, the need of a review and the promotions say of the fields.
use lang_sop.Base.{
  if◌then◌else◌, ◌≡◌, refl, ◌∙◌, sym, ap, ◌↔◌, ◌≢◌, String, Bool, true, false, not, ◌&&◌, ◌||◌,
  ◌==◌, eq_iff, List, [], ◌∷◌, contains, is_empty, is_empty-only_if, arith, Bool-cases, inl, inr,
}
use lang_sop.Text.Sets.{distinct, intersection}
use lang_sop.Operations.Requests.Vocabulary.{OperationEffectClass, OperationTargetRisk}
use lang_sop.Operations.Requests.Fields.{
  high_risk_target_set, operation_target_risk_is_high, safe_dry_run_effect_set,
  blocked_live_effect_set, target_kind_set,
}
use lang_sop.Operations.Requests.Records.{OperationRequestEnvelope}
use lang_sop.Operations.Requests.Classes.{
  classify_intended_effect, classify_resource_target, effect_class, target_risk,
  requires_resource_safety_review,
}
use lang_sop.Operations.Requests.Boundaries.{authority_promotion_issues}

-- A request with little risk, as its own words have it.
pub record IsBounded (e : OperationRequestEnvelope) : Type 0 where
  pub no_side_effect : is_empty e.predicted_side_effect_set ≡ true
  pub narrow : contains e.blast_radius ("uncertain" ∷ "wide" ∷ "critical" ∷ "unknown" ∷ []) ≡ false
  pub low_risk : contains e.risk_classification ("critical" ∷ "high" ∷ "unknown" ∷ []) ≡ false

absurd_false {ℓ} : {A : Type ℓ} → false ≡ true → A
absurd_false h = cc

-- A member of a set is no text outside it.
pub differs_lem :
    (k x : String) (set : List String)
    → contains k set ≡ true
    → contains x set ≡ false
    → (k == x) ≡ false
differs_lem k x set m n = elim (Bool-cases (k == x)) [
  | inl e ↦ absurd_false (sym n ∙ (ap (λ t. contains t set) (sym ((eq_iff k x).0 e)) ∙ m))
  | inr e ↦ e
]

pub effect_iff :
    (s : String)
    → (classify_intended_effect s ≡ OperationEffectClass.safe_dry_run)
      ↔ (contains s safe_dry_run_effect_set ≡ true)
unfolding classify_intended_effect
effect_iff s = elim (Bool-cases (contains s safe_dry_run_effect_set)) [
  | inl a ↦ rw a (λ h. refl, λ h. refl)
  | inr a ↦ rw a (elim (Bool-cases (contains s blocked_live_effect_set)) [
    | inl b ↦ rw b (λ h. cc, λ h. cc)
    | inr b ↦ rw b (λ h. cc, λ h. cc)
  ])
]

abbrev risk_of : Bool → Bool → Bool → OperationTargetRisk
risk_of unknown kind high =
    if unknown || not kind
    then OperationTargetRisk.ambiguous
    else if high
    then OperationTargetRisk.high
    else OperationTargetRisk.low

risk_of_iff :
    (u k h : Bool) → (risk_of u k h ≢ OperationTargetRisk.ambiguous) ↔ ((u ≡ false) × (k ≡ true))
risk_of_iff true k h = (λ n. absurd (n refl), λ m. absurd_false (sym (m.0)))
risk_of_iff false false h = (λ n. absurd (n refl), λ m. absurd_false (m.1))
risk_of_iff false true true = (λ n. (refl, refl), λ m e. cc)
risk_of_iff false true false = (λ n. (refl, refl), λ m e. cc)

risk_lem :
    (t : String)
    → classify_resource_target t
      ≡ risk_of
          (t == "unknown_or_ambiguous")
          (contains t target_kind_set)
          (contains t high_risk_target_set)
unfolding classify_resource_target
risk_lem t = refl

pub risk_high_lem :
    (t : String)
    → (t == "unknown_or_ambiguous") ≡ false
    → contains t target_kind_set ≡ true
    → operation_target_risk_is_high (classify_resource_target t) ≡ contains t high_risk_target_set
risk_high_lem t h k = rw (risk_lem t, h, k) (ap_high (contains t high_risk_target_set))
  where
    ap_high : (b : Bool) → operation_target_risk_is_high (risk_of false true b) ≡ b
    ap_high true = refl
    ap_high false = refl

pub review_lem :
    (e : OperationRequestEnvelope)
    → effect_class e ≡ OperationEffectClass.safe_dry_run
    → requires_resource_safety_review e ≡ (
        operation_target_risk_is_high (target_risk e)
        && (not (is_empty e.predicted_side_effect_set)
            || (contains e.blast_radius ("uncertain" ∷ "wide" ∷ "critical" ∷ "unknown" ∷ [])
                || contains e.risk_classification ("critical" ∷ "high" ∷ "unknown" ∷ []))))
unfolding requires_resource_safety_review
review_lem e h = elim (Bool-cases (operation_target_risk_is_high (target_risk e))) [
  | inl a ↦ rw (h, a) refl
  | inr a ↦ rw (h, a) refl
]

pub promotion_lem :
    (e : OperationRequestEnvelope)
    → contains e.intended_effect safe_dry_run_effect_set ≡ true
    → is_empty (authority_promotion_issues e) ≡ (
        not e.requested_authority_promotion
        && is_empty (
            intersection
              (distinct e.cited_authority_set)
              ("generated_projection" ∷ "fixture_success" ∷ [])))
unfolding authority_promotion_issues contains
promotion_lem e h =
    rw
      (
        differs_lem e.intended_effect "job_dispatch" safe_dry_run_effect_set h refl,
        differs_lem e.intended_effect "job_cancellation" safe_dry_run_effect_set h refl,
      )
      (simp (is_empty-only_if) (ground arith))

low_lem : (a b c : Bool) → (not a || (b || c)) ≡ false → (a ≡ true) × (b ≡ false) × (c ≡ false)
low_lem a b c h = ground arith

pub low_iff :
    (e : OperationRequestEnvelope)
    → ((not (is_empty e.predicted_side_effect_set)
          || (contains e.blast_radius ("uncertain" ∷ "wide" ∷ "critical" ∷ "unknown" ∷ [])
              || contains e.risk_classification ("critical" ∷ "high" ∷ "unknown" ∷ [])))
        ≡ false)
      ↔ IsBounded e
low_iff e = (
  λ h.
      let (no_side_effect, narrow, low_risk) =
        low_lem (is_empty e.predicted_side_effect_set)
          (contains e.blast_radius ("uncertain" ∷ "wide" ∷ "critical" ∷ "unknown" ∷ []))
          (contains e.risk_classification ("critical" ∷ "high" ∷ "unknown" ∷ [])) h in
      record { no_side_effect = no_side_effect; narrow = narrow; low_risk = low_risk },
  λ b. rw (b.no_side_effect, b.narrow, b.low_risk) refl,
)

pub neither : (a b : Bool) → (a || b) ≡ false → (a ≡ false) × (b ≡ false)
neither a b h = ground arith

pub or_false : (a b : Bool) → a ≡ false → b ≡ false → (a || b) ≡ false
or_false a b h k = ground arith

pub and_false : (a b : Bool) → (a ≡ true → b ≡ false) → (a && b) ≡ false
and_false true b f = f refl
and_false false b f = refl

pub second_false : (a b : Bool) → a ≡ true → (a && b) ≡ false → b ≡ false
second_false a b h k = ground arith

pub target_iff :
    (t : String)
    → (classify_resource_target t ≢ OperationTargetRisk.ambiguous)
      ↔ (((t == "unknown_or_ambiguous") ≡ false) × (contains t target_kind_set ≡ true))
target_iff t = rw (risk_lem t) (
    risk_of_iff (t == "unknown_or_ambiguous") (contains t target_kind_set)
      (contains t high_risk_target_set))
