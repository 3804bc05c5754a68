-- ===== src/Authority/Validation.antt =====
-- src/langsop/authority/validation.py: the classification of a candidate record, and its report.
pub mod Pipeline
pub mod Signed
pub mod Faults
use lang_sop.Base.{
  String, ◌<>◌, ◌==◌, Bool, true, false, not, ◌&&◌, ◌||◌, List, [], ◌∷◌, ◌++◌, map, keep, only_if,
  is_empty, is_empty_text, if◌then◌else◌,
}
use lang_sop.Text.{starts_with}
use lang_sop.Text.Affixes.{remove_prefix}
use lang_sop.Records.{get_text}
use lang_sop.Authority.Extraction.{KernelRecordCandidate}

abbrev pub expected_signature_protocol_uuid : String
expected_signature_protocol_uuid = "ad10f10f-d506-48ef-a805-f8b0a133766c"

pub record ProofResult : Type 0 where
  pub proof_id : String
  pub proof_subject_ref : String
  pub proof_kind : String
  pub proof_method : String
  pub input_ref_set : List String
  pub expected_hash_set : List String
  pub observed_hash_set : List String
  pub signature_ref : String
  pub proof_status : String
  pub proof_scope : String
  pub proof_limit : String

pub record ValidationFault : Type 0 where
  pub fault_id : String
  pub fault_kind : String
  pub fault_subject_ref : String
  pub fault_severity : String
  pub reason : String

pub record CandidateValidation : Type 0 where
  pub candidate : KernelRecordCandidate
  pub hash_check_status : String
  pub signature_check_status : String
  pub lineage_check_status : String
  pub freshness_check_status : String
  pub authority_classification : String
  pub proof_result_status : String
  pub fault_or_interrupt : String

pub record ValidationReport : Type 0 where
  pub candidate_results : List CandidateValidation
  pub proof_results : List ProofResult
  pub faults : List ValidationFault
  pub stale_projection_refs : List String

-- The local variables of `_validate_candidate` before its chain of tests.
abbrev unclassified : KernelRecordCandidate → CandidateValidation
unclassified c = record {
  candidate = c;
  hash_check_status = "hash_runtime_check";
  signature_check_status = "signature_not_required";
  lineage_check_status =
      if not (is_empty c.lineage_edge_set) then "lineage_present" else "lineage_missing";
  freshness_check_status = c.freshness_state;
  authority_classification = c.authority_state;
  proof_result_status = if c.status == "blocked" then "blocked" else "verified";
  fault_or_interrupt = "none";
}

abbrev pub expected_status : KernelRecordCandidate → String
expected_status c = get_text c.payload "expected_record_status" c.blocked_or_fault_reason

abbrev pub has_wrong_protocol : KernelRecordCandidate → Bool
has_wrong_protocol c =
    let protocol = get_text c.payload "signature_protocol_uuid" "" in
    not (is_empty_text protocol) && not (protocol == expected_signature_protocol_uuid)

abbrev pub has_valid_signature : KernelRecordCandidate → Bool
has_valid_signature c = get_text c.payload "signature_status" "" == "valid"

abbrev signature_if_valid : Bool → String → String
signature_if_valid b other = if b then "signature_valid" else other

-- The last branch, where an authority candidate is accepted if its signature is valid.
abbrev accepted_if : Bool → CandidateValidation → CandidateValidation
accepted_if valid v = record v {
  signature_check_status = signature_if_valid valid "signature_missing";
  authority_classification = "signed_sjs_authority_candidate";
  proof_result_status = if valid then "verified" else "blocked";
  fault_or_interrupt = if valid then "none" else "missing_signature";
}

-- The tests on a status that is not blocked.
abbrev pub classify_open : String → KernelRecordCandidate → CandidateValidation
classify_open expected c =
    if expected == "projection_only_not_authority"
    then record (unclassified c) {
      signature_check_status = "signature_not_authority";
      authority_classification = "projection_only";
      proof_result_status = "verified";
      fault_or_interrupt = "generated_projection";
    }
    else if expected == "source_mutation_refused"
    then record (unclassified c) {
      authority_classification = "refused";
      proof_result_status = "failed";
      fault_or_interrupt = "source_mutation_forbidden";
    }
    else if expected == "source_only_not_authority"
    then record (unclassified c) {
      signature_check_status = "signature_absent_allowed_for_source";
      lineage_check_status = "lineage_not_required";
      authority_classification = "source_only";
      proof_result_status = "verified";
      fault_or_interrupt = "unprocessed_source";
    }
    else if expected == "accepted_authority_candidate"
    then accepted_if (has_valid_signature c) (unclassified c)
    else unclassified c

unfoldable pub validate_candidate : KernelRecordCandidate → CandidateValidation
unfolding get_text
validate_candidate c =
    let v = unclassified c in
    let expected = expected_status c in
    if c.blocked_or_fault_reason == "parser_fault"
    then record v {
      signature_check_status = "signature_not_reached";
      lineage_check_status = "lineage_unknown";
      proof_result_status = "blocked";
      fault_or_interrupt = "malformed_line";
      authority_classification = "blocked";
    }
    else if expected == "blocked_missing_sjs_signature"
    then record v {
      signature_check_status = "signature_missing";
      proof_result_status = "failed";
      fault_or_interrupt = "missing_signature";
      authority_classification = "blocked";
    }
    else if expected == "blocked_wrong_signature_protocol" || has_wrong_protocol c
    then record v {
      signature_check_status = "signature_wrong_protocol";
      proof_result_status = "failed";
      fault_or_interrupt = "wrong_protocol";
      authority_classification = "blocked";
    }
    else if expected == "blocked_stale_source_hash"
    then record v {
      hash_check_status = "hash_mismatch";
      signature_check_status = "signature_stale";
      freshness_check_status = "stale";
      proof_result_status = "stale";
      fault_or_interrupt = "stale_source_hash";
      authority_classification = "blocked";
    }
    else if expected == "blocked_unresolved_identity" || c.natural_key_state == "unresolved"
    then record v {
      signature_check_status = signature_if_valid (has_valid_signature c) v.signature_check_status;
      proof_result_status = "blocked";
      fault_or_interrupt = "unresolved_identity";
      authority_classification = "blocked";
    }
    else if expected == "blocked_broken_lineage"
    then record v {
      signature_check_status = signature_if_valid (has_valid_signature c) v.signature_check_status;
      lineage_check_status = "lineage_missing";
      proof_result_status = "blocked";
      fault_or_interrupt = "broken_lineage";
      authority_classification = "blocked";
    }
    else classify_open expected c

abbrev hash_prefix : String
hash_prefix = "source_hash:"

unfoldable pub proof_result : KernelRecordCandidate → CandidateValidation → ProofResult
unfolding keep starts_with remove_prefix get_text
proof_result c v = record {
  proof_id = c.record_id <> (":" <> v.proof_result_status);
  proof_subject_ref = c.subject_ref;
  proof_kind = "authority_classification_check";
  proof_method = "ir2-structural-validation-v1";
  input_ref_set = c.source_ref_set;
  expected_hash_set = [];
  observed_hash_set =
      map (λ ref. remove_prefix ref hash_prefix)
        (keep (λ ref. starts_with ref hash_prefix) c.source_ref_set);
  signature_ref = get_text c.payload "signature_uuid" "";
  proof_status = v.proof_result_status;
  proof_scope = "structure_and_fixture_expectation";
  proof_limit = "does_not_establish_semantic_truth_or_runtime_authority";
}

unfoldable pub validation_fault : KernelRecordCandidate → CandidateValidation → ValidationFault
validation_fault c v = record {
  fault_id = c.record_id <> (":" <> v.fault_or_interrupt);
  fault_kind = v.fault_or_interrupt;
  fault_subject_ref = c.subject_ref;
  fault_severity = "recoverable";
  reason = "Validation classified candidate as " <> (v.authority_classification <> ".");
}

-- One round of the loop, before the rounds of the later candidates.
abbrev report_on : KernelRecordCandidate → CandidateValidation → ValidationReport → ValidationReport
report_on c v r = record {
  candidate_results = v ∷ r.candidate_results;
  proof_results = proof_result c v ∷ r.proof_results;
  faults = only_if (not (v.fault_or_interrupt == "none")) (validation_fault c v) ++ r.faults;
  stale_projection_refs =
      only_if (v.freshness_check_status == "stale") c.record_id ++ r.stale_projection_refs;
}

unfoldable pub validate_kernel_record_candidates : List KernelRecordCandidate → ValidationReport
unfolding validate_candidate proof_result validation_fault
validate_kernel_record_candidates [] = record {
  candidate_results = [];
  proof_results = [];
  faults = [];
  stale_projection_refs = [];
}
validate_kernel_record_candidates (c ∷ cs) =
    report_on c (validate_candidate c) (validate_kernel_record_candidates cs)
