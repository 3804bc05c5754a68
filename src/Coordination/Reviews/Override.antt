-- ===== src/Coordination/Reviews/Override.antt =====
-- Which human overrides `review_human_override` grants.
use mathlib.Core.Bool.{not-not}
use lang_sop.Base.{
  ◌≡◌, refl, ◌∙◌, sym, ap, ◌↔◌, String, Bool, true, false, not, ◌&&◌, ◌||◌, List, [], ◌∷◌, ◌++◌,
  contains, is_empty, is_empty-append, is_empty-only_if, both, false_of_not, arith, Bool-cases, inl,
  inr,
}
use lang_sop.Text.Sets.{distinct, intersection}
use lang_sop.Text.Sets.Laws.{avoids_iff, contains-distinct}
use lang_sop.Coordination.Reviews.Vocabulary.{
  CoordinationReviewDecision, forbidden_override_effect_set,
}
use lang_sop.Coordination.Reviews.Records.{HumanOverrideEnvelope}
use lang_sop.Coordination.Reviews.{review_human_override}

-- An override that holds, within its scope, for effects that neither it nor the code forbids.
pub record IsPermitted (e : HumanOverrideEnvelope) : Type 0 where
  pub in_time : e.expired ≡ false
  pub in_scope : e.out_of_scope ≡ false
  pub own_limits :
      (k : String)
      → contains k e.requested_effect_set ≡ true
      → contains k e.forbidden_effect_set ≡ false
  pub code_limits :
      (k : String)
      → contains k e.requested_effect_set ≡ true
      → contains k forbidden_override_effect_set ≡ false

abbrev forbidden_of : HumanOverrideEnvelope → List String
forbidden_of e = distinct (distinct e.forbidden_effect_set ++ forbidden_override_effect_set)

contains-append :
    (k : String) (xs ys : List String) → contains k (xs ++ ys) ≡ (contains k xs || contains k ys)
unfolding contains
contains-append k [] ys = refl
contains-append k (x ∷ xs) ys = ground (arith, contains-append k xs ys)

contains-forbidden_of :
    (k : String) (e : HumanOverrideEnvelope)
    → contains k (forbidden_of e)
      ≡ (contains k e.forbidden_effect_set || contains k forbidden_override_effect_set)
contains-forbidden_of k e =
    contains-distinct k (distinct e.forbidden_effect_set ++ forbidden_override_effect_set)
    ∙ (contains-append k (distinct e.forbidden_effect_set) forbidden_override_effect_set
        ∙ ap (λ b. b || contains k forbidden_override_effect_set)
            (contains-distinct k e.forbidden_effect_set))

abbrev override_tests : HumanOverrideEnvelope → Bool
override_tests e =
    not e.expired
    && (not e.out_of_scope
        && is_empty (intersection (distinct e.requested_effect_set) (forbidden_of e)))

is_empty-issues :
    (e : HumanOverrideEnvelope) → is_empty (review_human_override e).issue_set ≡ override_tests e
unfolding review_human_override
is_empty-issues e = simp (is_empty-append, is_empty-only_if, not-not)

granted_iff :
    (e : HumanOverrideEnvelope)
    → ((review_human_override e).decision ≡ CoordinationReviewDecision.human_override)
      ↔ (is_empty (review_human_override e).issue_set ≡ true)
unfolding review_human_override
granted_iff e = elim (Bool-cases (is_empty (review_human_override e).issue_set)) [
  | inl h ↦ rw h (λ d. refl, λ t. refl)
  | inr h ↦ rw h (λ d. cc, λ t. cc)
]

neither : (a b : Bool) → (a || b) ≡ false → (a ≡ false) × (b ≡ false)
neither a b h = ground arith

or_false : (a b : Bool) → a ≡ false → b ≡ false → (a || b) ≡ false
or_false a b h k = ground arith

-- A human override is granted exactly when it has not expired, is within its scope, and asks for no
-- effect that the override itself or the code forbids.
pub review_human_override-IsPermitted :
    (e : HumanOverrideEnvelope)
    → ((review_human_override e).decision ≡ CoordinationReviewDecision.human_override)
      ↔ IsPermitted e
review_human_override-IsPermitted e =
    let limits = avoids_iff e.requested_effect_set (forbidden_of e) in
    (
      λ d.
          let (in_time, t) = both (sym (is_empty-issues e) ∙ (granted_iff e).0 d) in
          let (in_scope, apart) = both t in
          let forbids = λ (k : String) (m : contains k e.requested_effect_set ≡ true).
            neither (contains k e.forbidden_effect_set) (contains k forbidden_override_effect_set)
              (sym (contains-forbidden_of k e) ∙ limits.0 apart k m) in
          record {
            in_time = false_of_not in_time;
            in_scope = false_of_not in_scope;
            own_limits = λ k m. (forbids k m).0;
            code_limits = λ k m. (forbids k m).1;
          },
      λ p.
          let apart = limits.1 (λ k m.
            contains-forbidden_of k e
            ∙ or_false (contains k e.forbidden_effect_set)
                (contains k forbidden_override_effect_set) (p.own_limits k m)
                (p.code_limits k m)) in
          (granted_iff e).1 (is_empty-issues e ∙ rw (p.in_time, p.in_scope, apart) refl),
    )
