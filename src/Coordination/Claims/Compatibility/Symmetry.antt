-- ===== src/Coordination/Claims/Compatibility/Symmetry.antt =====
-- The relation of two claims does not depend on their order.
use lang_sop.Base.{
  ◌&&◌, ◌≡◌, refl, ◌∙◌, sym, String, Bool, true, false, not, ◌||◌, ◌==◌, eq_iff, List, any,
  contains, none_iff, is_empty, arith, Bool-cases, inl, inr, if◌then◌else◌,
}
use lang_sop.Text.Sets.{distinct, intersection, same_set}
use lang_sop.Text.Sets.Laws.{is_empty-intersection}
use lang_sop.Coordination.Claims.Vocabulary.{ClaimCompatibilityRelation}
use lang_sop.Coordination.Claims.Records.{ClaimIdentityEnvelope, ClaimCompatibilityResult}
use lang_sop.Coordination.Claims.Compatibility.{classify_claim_compatibility}

-- The write scope of a claim: the one that is given, or the subjects of the claim.
abbrev pub write_scope : List String → ClaimIdentityEnvelope → List String
write_scope given claim =
    distinct (if not (is_empty given) then given else claim.scope_subject_ref_set)

eq_comm : (s t : String) → (s == t) ≡ (t == s)
eq_comm s t = ground (arith, eq_iff s t, eq_iff t s)

or_comm : (a b : Bool) → (a || b) ≡ (b || a)
or_comm a b = ground arith

same_set_comm : (xs ys : List String) → same_set xs ys ≡ same_set ys xs
unfolding same_set
same_set_comm xs ys = ground arith

bool_ext : (a b : Bool) → (a ≡ true → b ≡ true) → (b ≡ true → a ≡ true) → a ≡ b
bool_ext true true h k = refl
bool_ext true false h k = sym (h refl)
bool_ext false true h k = k refl
bool_ext false false h k = refl

absurd_true {ℓ} : {A : Type ℓ} → true ≡ false → A
absurd_true h = cc

avoids :
    (xs ys : List String)
    → not (any (λ x. contains x ys) xs) ≡ true
    → not (any (λ y. contains y xs) ys) ≡ true
avoids xs ys h = (none_iff (λ y. contains y xs) ys).1 (λ k m. elim (Bool-cases (contains k xs)) [
  | inl n ↦ absurd_true (sym m ∙ (none_iff (λ x. contains x ys) xs).0 h k n)
  | inr n ↦ n
])

pub is_empty-intersection_comm :
    (xs ys : List String) → is_empty (intersection xs ys) ≡ is_empty (intersection ys xs)
is_empty-intersection_comm xs ys =
    is_empty-intersection xs ys
    ∙ (bool_ext _ _ (avoids xs ys) (avoids ys xs) ∙ sym (is_empty-intersection ys xs))

if_relation :
    (b : Bool) (r s : ClaimCompatibilityResult)
    → (if b then r else s).relation ≡ (if b then r.relation else s.relation)
if_relation true r s = refl
if_relation false r s = refl

if_compatible :
    (b : Bool) (r s : ClaimCompatibilityResult)
    → (if b then r else s).compatible ≡ (if b then r.compatible else s.compatible)
if_compatible true r s = refl
if_compatible false r s = refl

-- The relation by the tests of the code: the same claim, a scope that is not known, the same scopes,
-- scopes that meet, and a scope that meets what the other claim reads.
relation_of : Bool → Bool → Bool → Bool → Bool → ClaimCompatibilityRelation
relation_of claim unknown scopes meet read =
    if claim
    then ClaimCompatibilityRelation.same_claim
    else if unknown
    then ClaimCompatibilityRelation.ambiguous_scope_relation
    else if scopes
    then ClaimCompatibilityRelation.identical_write_scope
    else if meet
    then ClaimCompatibilityRelation.overlapping_write_scope
    else if read
    then ClaimCompatibilityRelation.read_only_overlap
    else ClaimCompatibilityRelation.non_overlapping_write_scope

abbrev meets : List String → List String → Bool
meets xs ys = not (is_empty (intersection xs ys))

module _ (a b : ClaimIdentityEnvelope) (wa wb ra rb : List String) where
  relation_lem :
      (classify_claim_compatibility a b wa wb ra rb).relation
      ≡ relation_of
          (a.claim_id == b.claim_id)
          (is_empty (write_scope wa a) || is_empty (write_scope wb b))
          (same_set (write_scope wa a) (write_scope wb b))
          (meets (write_scope wa a) (write_scope wb b))
          (meets (write_scope wa a) (distinct rb) || meets (write_scope wb b) (distinct ra))
  unfolding classify_claim_compatibility relation_of
  relation_lem = simp (if_relation)

  compatible_tests_lem : (classify_claim_compatibility a b wa wb ra rb).compatible ≡ (
      if a.claim_id == b.claim_id
      then true
      else if is_empty (write_scope wa a) || is_empty (write_scope wb b)
      then false
      else if same_set (write_scope wa a) (write_scope wb b)
      then false
      else if meets (write_scope wa a) (write_scope wb b)
      then false
      else if meets (write_scope wa a) (distinct rb) || meets (write_scope wb b) (distinct ra)
      then true
      else true)
  unfolding classify_claim_compatibility
  compatible_tests_lem = simp (if_compatible)

  pub compatible_lem : (classify_claim_compatibility a b wa wb ra rb).compatible ≡ (
      (a.claim_id == b.claim_id)
      || (not (is_empty (write_scope wa a) || is_empty (write_scope wb b))
          && (not (same_set (write_scope wa a) (write_scope wb b))
              && is_empty (intersection (write_scope wa a) (write_scope wb b)))))
  compatible_lem = compatible_tests_lem ∙ ground arith

module _ (a b : ClaimIdentityEnvelope) (wa wb ra rb : List String) where
  -- Two claims that change places, with their scopes, have the same relation and are compatible
  -- or not as before.
  pub classify_claim_compatibility_comm :
      ((classify_claim_compatibility a b wa wb ra rb).relation
        ≡ (classify_claim_compatibility b a wb wa rb ra).relation)
      × ((classify_claim_compatibility a b wa wb ra rb).compatible
          ≡ (classify_claim_compatibility b a wb wa rb ra).compatible)
  classify_claim_compatibility_comm =
      let xs = write_scope wa a in
      let ys = write_scope wb b in
      let claim = eq_comm a.claim_id b.claim_id in
      let unknown = or_comm (is_empty xs) (is_empty ys) in
      let scopes = same_set_comm xs ys in
      let meet = is_empty-intersection_comm xs ys in
      let read = or_comm (meets xs (distinct rb)) (meets ys (distinct ra)) in
      (
        rw
            (
              relation_lem a b wa wb ra rb,
              relation_lem b a wb wa rb ra,
              claim,
              unknown,
              scopes,
              meet,
              read,
            )
            refl,
        rw
            (
              compatible_lem a b wa wb ra rb,
              compatible_lem b a wb wa rb ra,
              claim,
              unknown,
              scopes,
              meet,
            )
            refl,
      )
