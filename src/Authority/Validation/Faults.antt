-- ===== src/Authority/Validation/Faults.antt =====
-- Which candidates of a report have a fault, and which have a verified proof.
use lang_sop.Base.{
  ◌≡◌, refl, ◌∙◌, ap, String, Bool, true, false, not, ◌&&◌, ◌||◌, ◌==◌, eq_iff, List, [], ◌∷◌,
  contains, keep, map, arith, Bool-cases, inl, inr, if◌then◌else◌,
}
use lang_sop.Authority.Extraction.{KernelRecordCandidate}
use lang_sop.Authority.Validation.{
  CandidateValidation, expected_status, has_wrong_protocol, has_valid_signature, validate_candidate,
  validation_fault, proof_result, validate_kernel_record_candidates,
}

-- A candidate that is blocked: its text did not parse, a reason for a block is expected of it, its
-- signature names another protocol, or its identity is not resolved.
abbrev pub is_blocked : KernelRecordCandidate → Bool
is_blocked c =
    (c.blocked_or_fault_reason == "parser_fault")
    || (contains (expected_status c) (
          "blocked_missing_sjs_signature" ∷ "blocked_wrong_signature_protocol"
          ∷ "blocked_stale_source_hash" ∷ "blocked_unresolved_identity" ∷ "blocked_broken_lineage"
          ∷ [])
        || (has_wrong_protocol c || (c.natural_key_state == "unresolved")))

abbrev pub expects : String → KernelRecordCandidate → Bool
expects status c = expected_status c == status

-- An authority candidate without a valid signature.
abbrev pub is_unsigned : KernelRecordCandidate → Bool
is_unsigned c = expects "accepted_authority_candidate" c && not (has_valid_signature c)

-- A candidate that is blocked or unsigned, or is a projection, a refused mutation or a mere source.
abbrev pub has_fault : KernelRecordCandidate → Bool
has_fault c =
    is_blocked c
    || (contains (expected_status c) (
          "projection_only_not_authority" ∷ "source_mutation_refused" ∷ "source_only_not_authority"
          ∷ [])
        || is_unsigned c)

-- A candidate with a verified proof: a projection or a source, a signed authority candidate, or one
-- without a fault whose own status is not blocked.
abbrev pub is_verified : KernelRecordCandidate → Bool
is_verified c =
    not (is_blocked c)
    && (contains (expected_status c)
          ("projection_only_not_authority" ∷ "source_only_not_authority" ∷ [])
        || (not (has_fault c)
            && (expects "accepted_authority_candidate" c || not (c.status == "blocked"))))

fault-if :
    (b : Bool) (v w : CandidateValidation)
    → (if b then v else w).fault_or_interrupt
      ≡ (if b then v.fault_or_interrupt else w.fault_or_interrupt)
fault-if true v w = refl
fault-if false v w = refl

proof-if :
    (b : Bool) (v w : CandidateValidation)
    → (if b then v else w).proof_result_status
      ≡ (if b then v.proof_result_status else w.proof_result_status)
proof-if true v w = refl
proof-if false v w = refl

is-if : (b : Bool) (s t u : String) → ((if b then s else t) == u) ≡ (if b then s == u else t == u)
is-if true s t u = refl
is-if false s t u = refl

-- The chain of tests that block, before the tests on an open status.
blocked_chain_lem :
    (parser missing protocol wrong stale identity unresolved broken x : Bool)
    → (if parser
        then false
        else if missing
        then false
        else if protocol || wrong
        then false
        else if stale
        then false
        else if identity || unresolved
        then false
        else if broken
        then false
        else x)
      ≡ (not (
            parser
            || ((missing || (protocol || (stale || (identity || (broken || false)))))
                || (wrong || unresolved)))
          && x)
blocked_chain_lem true missing protocol wrong stale identity unresolved broken x = refl
blocked_chain_lem false true protocol wrong stale identity unresolved broken x = refl
blocked_chain_lem false false protocol wrong stale identity unresolved broken x = ground arith

fault_chain_lem :
    (blocked projection mutation source candidate valid : Bool)
    → not (
        not blocked
        && (if projection
            then false
            else if mutation
            then false
            else if source
            then false
            else if candidate
            then (if valid then true else false)
            else true))
      ≡ (blocked || ((projection || (mutation || (source || false))) || (candidate && not valid)))
fault_chain_lem true projection mutation source candidate valid = refl
fault_chain_lem false projection mutation source candidate valid = ground arith

proof_chain_lem :
    (blocked projection mutation source candidate valid waits : Bool)
    → (mutation ≡ true → source ≡ false)
    → (not blocked
        && (if projection
            then true
            else if mutation
            then false
            else if source
            then true
            else if candidate
            then (if valid then true else false)
            else (if waits then false else true)))
      ≡ (not blocked
          && ((projection || (source || false))
              || (not (
                    blocked
                    || ((projection || (mutation || (source || false)))
                        || (candidate && not valid)))
                  && (candidate || not waits))))
proof_chain_lem true projection mutation source candidate valid waits h = refl
proof_chain_lem false projection true source candidate valid waits h = rw (h refl) (ground arith)
proof_chain_lem false projection false source candidate valid waits h = ground arith

-- A refused mutation is no source.
apart_lem :
    (s : String)
    → (s == "source_mutation_refused") ≡ true
    → (s == "source_only_not_authority") ≡ false
apart_lem s h =
    ap (λ t. t == "source_only_not_authority") ((eq_iff s "source_mutation_refused").0 h)

fault_lem :
    (c : KernelRecordCandidate)
    → not ((validate_candidate c).fault_or_interrupt == "none") ≡ has_fault c
unfolding validate_candidate contains
fault_lem c =
    simp (fault-if, is-if)
      (ap not (
          blocked_chain_lem (c.blocked_or_fault_reason == "parser_fault")
            (expects "blocked_missing_sjs_signature" c)
            (expects "blocked_wrong_signature_protocol" c) (has_wrong_protocol c)
            (expects "blocked_stale_source_hash" c) (expects "blocked_unresolved_identity" c)
            (c.natural_key_state == "unresolved") (expects "blocked_broken_lineage" c) _)
        ∙ fault_chain_lem (is_blocked c) (expects "projection_only_not_authority" c)
            (expects "source_mutation_refused" c) (expects "source_only_not_authority" c)
            (expects "accepted_authority_candidate" c) (has_valid_signature c))

proof_lem :
    (c : KernelRecordCandidate)
    → ((validate_candidate c).proof_result_status == "verified") ≡ is_verified c
unfolding validate_candidate contains
proof_lem c =
    simp (proof-if, is-if)
      (blocked_chain_lem (c.blocked_or_fault_reason == "parser_fault")
          (expects "blocked_missing_sjs_signature" c) (expects "blocked_wrong_signature_protocol" c)
          (has_wrong_protocol c) (expects "blocked_stale_source_hash" c)
          (expects "blocked_unresolved_identity" c) (c.natural_key_state == "unresolved")
          (expects "blocked_broken_lineage" c) _
        ∙ proof_chain_lem (is_blocked c) (expects "projection_only_not_authority" c)
            (expects "source_mutation_refused" c) (expects "source_only_not_authority" c)
            (expects "accepted_authority_candidate" c) (has_valid_signature c)
            (c.status == "blocked") (apart_lem (expected_status c)))

-- The subjects of the faults of a report are, in order, those of the candidates with a fault, and its
-- proofs are, candidate by candidate, verified or not: a candidate has a fault when it is blocked, is
-- unsigned, or is a projection, a refused mutation or a mere source; it is verified when it is not
-- blocked and is a projection or a source, or has no fault and is signed or not blocked by its own status.
pub validate_kernel_record_candidates-has_fault :
    (cs : List KernelRecordCandidate)
    → (map (λ f. f.fault_subject_ref) (validate_kernel_record_candidates cs).faults
        ≡ map (λ c. c.subject_ref) (keep has_fault cs))
      × (map {B = String × Bool}
            (λ p. (p.proof_subject_ref, p.proof_status == "verified"))
            (validate_kernel_record_candidates cs).proof_results
          ≡ map {B = String × Bool} (λ c. (c.subject_ref, is_verified c)) cs)
unfolding validate_kernel_record_candidates validation_fault proof_result keep
validate_kernel_record_candidates-has_fault [] = (refl, refl)
validate_kernel_record_candidates-has_fault (c ∷ cs) =
    let (faults, proofs) = validate_kernel_record_candidates-has_fault cs in
    (
      rw (fault_lem c) (elim (Bool-cases (has_fault c)) [
        | inl e ↦ rw e (ap (λ ss. c.subject_ref ∷ ss) faults)
        | inr e ↦ rw e faults
      ]),
      rw (proof_lem c) (ap (λ ss. (c.subject_ref, is_verified c) ∷ ss) proofs),
    )
