-- ===== src/Authority/Validation/Signed.antt =====
-- Which candidates are verified as signed authority, and which parsed texts never are.
use lang_sop.Base.{
  ◌≡◌, refl, ◌∙◌, sym, ◌↔◌, String, Bool, true, false, not, ◌==◌, eq_iff, arith, Bool-cases, inl,
  inr, ◌&&◌, ◌||◌,
}
use lang_sop.Authority.Extraction.{KernelRecordCandidate}
use lang_sop.Authority.Validation.{
  CandidateValidation, classify_open, expected_status, has_wrong_protocol, has_valid_signature,
  validate_candidate,
}

abbrev pub signed : String
signed = "signed_sjs_authority_candidate"

abbrev is_signed : CandidateValidation → Bool
is_signed v = (v.authority_classification == signed) && (v.proof_result_status == "verified")

-- The tests of the chain, in their order.
abbrev is_stopped : KernelRecordCandidate → Bool
is_stopped c =
    (c.blocked_or_fault_reason == "parser_fault")
    || ((expected_status c == "blocked_missing_sjs_signature")
        || (((expected_status c == "blocked_wrong_signature_protocol") || has_wrong_protocol c)
            || ((expected_status c == "blocked_stale_source_hash")
                || (((expected_status c == "blocked_unresolved_identity")
                      || (c.natural_key_state == "unresolved"))
                    || ((expected_status c == "blocked_broken_lineage") || false)))))

is_signed-classify_open :
    (x : String) (c : KernelRecordCandidate)
    → (c.authority_state == signed) ≡ false
    → is_signed (classify_open x c)
      ≡ ((x == "accepted_authority_candidate") && has_valid_signature c)
is_signed-classify_open x c h = elim (Bool-cases (x == "projection_only_not_authority")) [
  | inl e ↦ rw ((eq_iff x _).0 e) refl
  | inr e ↦ rw e (elim (Bool-cases (x == "source_mutation_refused")) [
    | inl f ↦ rw ((eq_iff x _).0 f) refl
    | inr f ↦ rw f (elim (Bool-cases (x == "source_only_not_authority")) [
      | inl g ↦ rw ((eq_iff x _).0 g) refl
      | inr g ↦ rw g (elim (Bool-cases (x == "accepted_authority_candidate")) [
        | inl k ↦
            rw k
              (elim (Bool-cases (has_valid_signature c)) [ inl v ↦ rw v refl | inr v ↦ rw v refl ])
        | inr k ↦ rw (k, h) refl
      ])
    ])
  ])
]

is_signed-validate :
    (c : KernelRecordCandidate)
    → (c.authority_state == signed) ≡ false
    → is_signed (validate_candidate c) ≡ (
        not (is_stopped c)
        && ((expected_status c == "accepted_authority_candidate") && has_valid_signature c))
unfolding validate_candidate
is_signed-validate c h = elim (Bool-cases (c.blocked_or_fault_reason == "parser_fault")) [
  | inl e ↦ rw e refl
  | inr e ↦ rw e (elim (Bool-cases (expected_status c == "blocked_missing_sjs_signature")) [
    | inl e ↦ rw e refl
    | inr e ↦
        rw e
          (elim (Bool-cases
            ((expected_status c == "blocked_wrong_signature_protocol") || has_wrong_protocol c)) [
              | inl e ↦ rw e refl
              | inr e ↦ rw e (elim (Bool-cases (expected_status c == "blocked_stale_source_hash")) [
                | inl e ↦ rw e refl
                | inr e ↦
                    rw e
                      (elim (Bool-cases (
                        (expected_status c == "blocked_unresolved_identity")
                        || (c.natural_key_state == "unresolved"))) [
                          | inl e ↦ rw e refl
                          | inr e ↦
                              rw e
                                (elim (Bool-cases (expected_status c == "blocked_broken_lineage")) [
                                  | inl e ↦ rw e refl
                                  | inr e ↦ rw e (is_signed-classify_open (expected_status c) c h)
                                ])
                        ])
              ])
            ])
  ])
]

-- What a candidate needs to be verified as signed authority.
pub record IsSigned (c : KernelRecordCandidate) : Type 0 where
  pub parsed : (c.blocked_or_fault_reason == "parser_fault") ≡ false
  pub expected : expected_status c ≡ "accepted_authority_candidate"
  pub protocol : has_wrong_protocol c ≡ false
  pub resolved : (c.natural_key_state == "unresolved") ≡ false
  pub signature : has_valid_signature c ≡ true

both_true : {a b : Bool} → a ≡ true → b ≡ true → (a && b) ≡ true
both_true h k = ground arith

true_both : (a b : Bool) → (a && b) ≡ true → (a ≡ true) × (b ≡ true)
true_both a b h = ground arith

abbrev signed_tests : KernelRecordCandidate → Bool
signed_tests c =
    not (is_stopped c)
    && ((expected_status c == "accepted_authority_candidate") && has_valid_signature c)

-- The tests of the chain all fail on the expected status of a signed candidate.
stopped_lem :
    (a : Bool) (x : String) (w u : Bool)
    → x ≡ "accepted_authority_candidate"
    → (a
        || ((x == "blocked_missing_sjs_signature")
            || (((x == "blocked_wrong_signature_protocol") || w)
                || ((x == "blocked_stale_source_hash")
                    || (((x == "blocked_unresolved_identity") || u)
                        || (x == "blocked_broken_lineage"))))))
      ≡ (a || (w || u))
stopped_lem a x w u e = rw e (ground arith)

IsSigned-of_tests : (c : KernelRecordCandidate) → signed_tests c ≡ true → IsSigned c
IsSigned-of_tests c t =
    let (go, found) =
      true_both (not (is_stopped c))
        ((expected_status c == "accepted_authority_candidate") && has_valid_signature c) t in
    let (named, valid) =
      true_both (expected_status c == "accepted_authority_candidate") (has_valid_signature c)
        found in
    let expects = (eq_iff (expected_status c) "accepted_authority_candidate").0 named in
    let stops =
      stopped_lem (c.blocked_or_fault_reason == "parser_fault") (expected_status c)
        (has_wrong_protocol c) (c.natural_key_state == "unresolved") expects in
    record {
      parsed = ground (arith, go, stops);
      expected = expects;
      protocol = ground (arith, go, stops);
      resolved = ground (arith, go, stops);
      signature = valid;
    }

signed_tests-of_IsSigned : (c : KernelRecordCandidate) → IsSigned c → signed_tests c ≡ true
signed_tests-of_IsSigned c s =
    let stops =
      stopped_lem (c.blocked_or_fault_reason == "parser_fault") (expected_status c)
        (has_wrong_protocol c) (c.natural_key_state == "unresolved") s.expected in
    let named = (eq_iff (expected_status c) "accepted_authority_candidate").1 s.expected in
    ground (arith, stops, named, s.parsed, s.protocol, s.resolved, s.signature)

-- Among candidates whose own authority state does not claim it, exactly those are verified as signed
-- authority whose reason is not a parser fault, whose expected status is that of an accepted authority
-- candidate, which name the expected signature protocol or none, and which have a resolved key and a
-- valid signature.
pub validate_candidate-IsSigned :
    (c : KernelRecordCandidate)
    → (c.authority_state == signed) ≡ false
    → ((validate_candidate c).authority_classification ≡ signed
        × (validate_candidate c).proof_result_status ≡ "verified")
      ↔ IsSigned c
validate_candidate-IsSigned c h =
    let v = validate_candidate c in
    let same = is_signed-validate c h in
    let names = eq_iff v.authority_classification signed in
    let proofs = eq_iff v.proof_result_status "verified" in
    (
      λ (k, l). IsSigned-of_tests c (sym same ∙ both_true (names.1 k) (proofs.1 l)),
      λ s.
          let (k, l) = true_both _ _ (same ∙ signed_tests-of_IsSigned c s) in
          (names.0 k, proofs.0 l),
    )
