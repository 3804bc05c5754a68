-- ===== src/Authority/Validation/Pipeline.antt =====
-- From the text of a SOP to the report: a text with a parser fault never has authority.
use lang_sop.Base.{◌≡◌, refl, ap, String, true, false, ◌==◌, Option, [], ◌∷◌, map, is_empty}
use lang_sop.Text.{Identifiers}
use lang_sop.Authority.Parser.{ParsedSopDocument, parse_sop_text}
use lang_sop.Authority.Extraction.{
  KernelRecordCandidate, extract_kernel_record_candidates, candidate_of, status_and_reason,
}
use lang_sop.Authority.Validation.{
  ValidationReport, validate_candidate, validate_kernel_record_candidates, validation_fault,
}

-- A report on one candidate that is blocked for a malformed line.
pub record IsMalformed (r : ValidationReport) : Type 0 where
  pub classifications : map (λ v. v.authority_classification) r.candidate_results ≡ "blocked" ∷ []
  pub proofs : map (λ p. p.proof_status) r.proof_results ≡ "blocked" ∷ []
  pub faults : map (λ f. f.fault_kind) r.faults ≡ "malformed_line" ∷ []

reason_of_faults :
    (text_hash : String → String) (document : ParsedSopDocument)
    → is_empty document.faults ≡ false
    → (candidate_of text_hash document).blocked_or_fault_reason ≡ "parser_fault"
unfolding candidate_of status_and_reason
reason_of_faults text_hash document h = rw h refl

IsMalformed-of_reason :
    (c : KernelRecordCandidate)
    → (c.blocked_or_fault_reason == "parser_fault") ≡ true
    → IsMalformed (validate_kernel_record_candidates (c ∷ []))
unfolding validate_kernel_record_candidates validate_candidate validation_fault
IsMalformed-of_reason c h = record {
  classifications = rw h refl;
  proofs = rw h refl;
  faults = rw h refl;
}

module _ (u : Identifiers) (text_hash : String → String) (path : String) (given : Option String)
    (sop : String) where
  abbrev pub parsed : ParsedSopDocument
  parsed = parse_sop_text u text_hash path given sop

  -- Where the parse of a text has a fault, the report on what is extracted from it has one candidate,
  -- which is blocked, and one fault, a malformed line, whatever the text claims.
  pub report_of_parser_fault :
      is_empty parsed.faults ≡ false
      → IsMalformed (
          validate_kernel_record_candidates
            (extract_kernel_record_candidates text_hash parsed).candidates)
  unfolding extract_kernel_record_candidates
  report_of_parser_fault h =
      IsMalformed-of_reason (candidate_of text_hash parsed)
        (ap (λ r. r == "parser_fault") (reason_of_faults text_hash parsed h))
