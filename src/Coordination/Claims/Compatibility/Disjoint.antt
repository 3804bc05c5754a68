-- ===== src/Coordination/Claims/Compatibility/Disjoint.antt =====
-- Two different claims are compatible exactly when their write scopes are known and have no subject in
-- common.
use lang_sop.Base.{
  ◌≡◌, ◌∙◌, ◌↔◌, String, true, false, not, ◌&&◌, ◌||◌, ◌==◌, List, [], ◌∷◌, any, all, contains,
  none_iff, is_empty, arith,
}
use lang_sop.Text.Sets.{intersection, same_set}
use lang_sop.Text.Sets.Laws.{is_empty-intersection}
use lang_sop.Coordination.Claims.Records.{ClaimIdentityEnvelope}
use lang_sop.Coordination.Claims.Compatibility.{classify_claim_compatibility}
use lang_sop.Coordination.Claims.Compatibility.Symmetry.{write_scope, compatible_lem}

-- Write scopes that are known and share no subject.
pub record IsDisjoint (xs ys : List String) : Type 0 where
  pub left : is_empty xs ≡ false
  pub right : is_empty ys ≡ false
  pub apart : (k : String) → contains k xs ≡ true → contains k ys ≡ false

-- Equal sets that are not empty have a common element.
same_set-meets :
    (xs ys : List String)
    → is_empty xs ≡ false
    → same_set xs ys ≡ true
    → any (λ x. contains x ys) xs ≡ true
unfolding same_set all any
same_set-meets [] ys h s = cc
same_set-meets (x ∷ xs) ys h s = ground arith

module _ (a b : ClaimIdentityEnvelope) (wa wb ra rb : List String) where
  disjoint_tests_lem :
      (xs ys : List String)
      → (not (is_empty xs || is_empty ys)
          && (not (same_set xs ys) && is_empty (intersection xs ys)))
        ≡ (not (is_empty xs) && (not (is_empty ys) && not (any (λ x. contains x ys) xs)))
  disjoint_tests_lem xs ys = ground (arith, is_empty-intersection xs ys, same_set-meets xs ys)

  -- Two claims with different identifiers are compatible exactly when both write scopes are known
  -- and no subject is in both.
  pub compatible-IsDisjoint :
      (a.claim_id == b.claim_id) ≡ false
      → ((classify_claim_compatibility a b wa wb ra rb).compatible ≡ true)
        ↔ IsDisjoint (write_scope wa a) (write_scope wb b)
  compatible-IsDisjoint h =
      let xs = write_scope wa a in
      let ys = write_scope wb b in
      let same : (classify_claim_compatibility a b wa wb ra rb).compatible
          ≡ (not (is_empty xs) && (not (is_empty ys) && not (any (λ x. contains x ys) xs))) =
        compatible_lem a b wa wb ra rb ∙ rw h (disjoint_tests_lem xs ys) in
      (
        λ c. record {
          left = ground (arith, same, c);
          right = ground (arith, same, c);
          apart =
              (none_iff (λ x. contains x (write_scope wb b)) (write_scope wa a)).0
                (ground (arith, same, c));
        },
        λ d.
            let n = (none_iff (λ x. contains x (write_scope wb b)) (write_scope wa a)).1 d.apart in
            same ∙ rw (d.left, d.right) n,
      )
