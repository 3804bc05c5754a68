-- ===== src/Tests/Authority.antt =====
-- The theorems of extraction, validation and discovery at small texts, records and trees.
use lang_sop.Base.{
  Bool, ◌≡◌, refl, ◌↔◌, ◌+◌, String, ◌<>◌, true, false, ◌==◌, none, List, [], ◌∷◌, length, map,
  keep, is_empty,
}
use lang_sop.Authority.Parser.{parse_sop_text}
use lang_sop.Authority.Extraction.{
  KernelRecordCandidate, extract_kernel_record_candidates, candidate_of,
}
use lang_sop.Authority.Validation.{
  proof_result, validate_candidate, validate_kernel_record_candidates,
}
use lang_sop.Authority.Validation.Signed.{signed, IsSigned, validate_candidate-IsSigned}
use lang_sop.Authority.Validation.Faults.{
  has_fault, is_verified, validate_kernel_record_candidates-has_fault,
}
use lang_sop.Authority.Validation.Pipeline.{IsMalformed, report_of_parser_fault}
use lang_sop.Authority.Discovery.{
  DiscoveryConfig, Entry, Tree, hashed, unreadable, discover_sop_artifacts, classify_sop_path_role,
}
use lang_sop.Authority.Discovery.Complete.{is_included, length-discover_sop_artifacts}
use lang_sop.Tests.Parsing.{ascii_only, no_hash, sample_text}

abbrev signed_text : String
signed_text =
    "+ [expected_record_status] is accepted_authority_candidate\n+ [signature_status] is valid"

-- No signature is named, and the document says itself that it has authority.
abbrev claiming_text : String
claiming_text = "+ [authority_state] is signed_sjs_authority_candidate"

abbrev candidate_from : String → KernelRecordCandidate
candidate_from text =
    candidate_of no_hash (parse_sop_text ascii_only no_hash "docs/a.sop" none text)

signed_is_verified :
    (validate_candidate (candidate_from signed_text)).authority_classification ≡ signed
unfolding validate_candidate candidate_of parse_sop_text
signed_is_verified = refl

claim_is_verified :
    map
      (λ v. v.authority_classification <> (" " <> v.proof_result_status))
      (validate_kernel_record_candidates (candidate_from claiming_text ∷ [])).candidate_results
    ≡ "signed_sjs_authority_candidate verified" ∷ []
unfolding validate_kernel_record_candidates candidate_of parse_sop_text
claim_is_verified = refl

sample_has_faults : is_empty (parse_sop_text ascii_only no_hash "p" none sample_text).faults ≡ false
unfolding parse_sop_text
sample_has_faults = refl

report_of_parser_fault_example : IsMalformed (
    validate_kernel_record_candidates
      (extract_kernel_record_candidates no_hash
        (parse_sop_text ascii_only no_hash "p" none sample_text)).candidates)
report_of_parser_fault_example =
    report_of_parser_fault ascii_only no_hash "p" none sample_text sample_has_faults

signed_claims_nothing : ((candidate_from signed_text).authority_state == signed) ≡ false
unfolding candidate_of parse_sop_text
signed_claims_nothing = refl

validate_candidate-IsSigned_example :
    ((validate_candidate (candidate_from signed_text)).authority_classification ≡ signed
      × (validate_candidate (candidate_from signed_text)).proof_result_status ≡ "verified")
    ↔ IsSigned (candidate_from signed_text)
validate_candidate-IsSigned_example =
    validate_candidate-IsSigned (candidate_from signed_text) signed_claims_nothing

abbrev two_candidates : List KernelRecordCandidate
two_candidates = candidate_from signed_text ∷ candidate_from sample_text ∷ []

validate_kernel_record_candidates-has_fault_example :
    (map (λ f. f.fault_subject_ref) (validate_kernel_record_candidates two_candidates).faults
      ≡ map (λ c. c.subject_ref) (keep has_fault two_candidates))
    × (map {B = String × Bool}
          (λ p. (p.proof_subject_ref, p.proof_status == "verified"))
          (validate_kernel_record_candidates two_candidates).proof_results
        ≡ map {B = String × Bool} (λ c. (c.subject_ref, is_verified c)) two_candidates)
validate_kernel_record_candidates-has_fault_example =
    validate_kernel_record_candidates-has_fault two_candidates

-- A reason for a block that no test of the code names: the proof is blocked, and there is no fault.
unnamed_block_is_blocked :
    map
      (λ p. p.proof_status)
      (validate_kernel_record_candidates
        (candidate_from "+ [expected_record_status] is blocked_by_review" ∷ [])).proof_results
    ≡ "blocked" ∷ []
unfolding validate_kernel_record_candidates proof_result candidate_of parse_sop_text
unnamed_block_is_blocked = refl

unnamed_block_gives_no_fault :
    is_empty
      (validate_kernel_record_candidates
        (candidate_from "+ [expected_record_status] is blocked_by_review" ∷ [])).faults
    ≡ true
unfolding validate_kernel_record_candidates candidate_of parse_sop_text
unnamed_block_gives_no_fault = refl

abbrev entry : String → Entry
entry path = record {
  relative_path = path;
  is_symlink = false;
  is_file = true;
  content = hashed "0";
}

abbrev sample_tree : Tree
sample_tree = record {
  root = "/r";
  root_exists = true;
  entries =
      entry "docs/b.sop"
      ∷ record (entry "docs/a.sop") { content = unreadable "no permission" }
      ∷ entry "docs/c.sop"
      ∷ entry "notes"
      ∷ [];
}

-- Patterns that are paths match themselves.
abbrev sample_config : DiscoveryConfig
sample_config = record {
  include_globs = "docs/a.sop" ∷ "docs/b.sop" ∷ "docs/c.sop" ∷ [];
  exclude_globs = "docs/c.sop" ∷ [];
  follow_symlinks = false;
}

role_of_backslashes : classify_sop_path_role "docs\\canonical\\a.sop" ≡ "signed_canonical_candidate"
unfolding classify_sop_path_role
role_of_backslashes = refl

length-discover_sop_artifacts_example :
    length (discover_sop_artifacts (λ p q. p == q) sample_config sample_tree).artifacts
      + length (discover_sop_artifacts (λ p q. p == q) sample_config sample_tree).diagnostics
    ≡ length (keep (is_included (λ p q. p == q) sample_config) sample_tree.entries)
length-discover_sop_artifacts_example =
    length-discover_sop_artifacts (λ p q. p == q) sample_config sample_tree refl
