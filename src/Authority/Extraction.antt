-- ===== src/Authority/Extraction.antt =====
-- src/langsop/authority/extraction.py: a candidate record from a parsed document.
use lang_sop.Base.{
  String, ◌<>◌, ◌==◌, Bool, not, ◌||◌, Option, none, some, List, [], ◌∷◌, ◌++◌, map, only_if,
  is_empty, length, is_empty_text, if◌then◌else◌,
}
use lang_sop.Text.{starts_with, has_part, slice_from, strip}
use lang_sop.Text.Affixes.{remove_prefix, remove_suffix, with_slashes, after_last_slash}
use lang_sop.Text.Decimal.{decimal}
use lang_sop.Records.{Dict, find_text, get_text, put}
use lang_sop.Authority.Parser.{ParseEvent, ParseFault, ParsedSopDocument}

abbrev pub extraction_rule_version : String
extraction_rule_version = "ir2-kernel-record-extraction-v1"

pub record KernelRecordCandidate : Type 0 where
  pub record_id : String
  pub record_kind : String
  pub natural_key : String
  pub natural_key_state : String
  pub subject_ref : String
  pub authority_state : String
  pub source_ref_set : List String
  pub lineage_edge_set : List String
  pub freshness_state : String
  pub status : String
  pub blocked_or_fault_reason : String
  pub payload : Dict

pub record ExtractionFault : Type 0 where
  pub fault_id : String
  pub fault_kind : String
  pub source_path : String
  pub reason : String

pub record ExtractionResult : Type 0 where
  pub candidates : List KernelRecordCandidate
  pub faults : List ExtractionFault

-- `_tail_value`
unfoldable pub tail_value : String → String
unfolding starts_with slice_from strip
tail_value tail = if starts_with tail "is " then strip (slice_from 3 tail) else strip tail

-- A directive with a label sets the field of the label.
abbrev set_field : ParseEvent → Dict → Dict
set_field e fields =
    if not (e.marker_kind == "directive") || is_empty_text e.bracket_label
    then fields
    else put e.bracket_label (tail_value e.tail_text) fields

-- The loop of `_extract_field_map`.
unfoldable pub field_map_from : Dict → List ParseEvent → Dict
unfolding put tail_value
field_map_from fields [] = fields
field_map_from fields (e ∷ events) = field_map_from (set_field e fields) events

unfoldable pub extract_field_map : List ParseEvent → Dict
unfolding field_map_from
extract_field_map events = field_map_from [] events

abbrev kind_of_path : String → String
kind_of_path path =
    if starts_with path "tests/fixtures/expected/"
    then "expected_output_ledger"
    else if starts_with path "tests/fixtures/sop/"
    then "fixture_source"
    else if starts_with path "docs/reviews/"
    then "completion_review"
    else if starts_with path "docs/canonical/"
    then "canonical_specification"
    else "source_log"

abbrev kind_or : Option String → String → String
kind_or none path = kind_of_path path
kind_or (some kind) path = if not (is_empty_text kind) then kind else kind_of_path path

unfoldable pub record_kind_for : String → Dict → String
unfolding starts_with find_text
record_kind_for path fields = kind_or (find_text "record_kind" fields) path

unfoldable pub authority_state_for_path : String → String
unfolding starts_with
authority_state_for_path path =
    if starts_with path "tests/fixtures/expected/"
    then "expected_output_authority_candidate"
    else if starts_with path "tests/fixtures/sop/"
    then "fixture_source_candidate"
    else "source_only"

abbrev draft_reason : String → String
draft_reason expected = if is_empty_text expected then "awaiting_validation" else expected

abbrev status_for : String → List ParseFault → String × String
status_for expected faults =
    if not (is_empty faults)
    then ("blocked", "parser_fault")
    else if starts_with expected "blocked"
    then ("blocked", remove_prefix expected "blocked_")
    else if expected == "parser_fault_preserved" || expected == "source_mutation_refused"
    then ("blocked", expected)
    else if expected == "source_only_not_authority" || expected == "projection_only_not_authority"
    then ("draft", expected)
    else if expected == "accepted_authority_candidate"
    then ("draft", "awaiting_validation")
    else ("draft", draft_reason expected)

unfoldable pub status_and_reason : Dict → ParsedSopDocument → String × String
unfolding get_text starts_with remove_prefix
status_and_reason fields document =
    status_for (get_text fields "expected_record_status" "") document.faults

unfoldable pub freshness_state : Dict → ParsedSopDocument → String
unfolding get_text has_part
freshness_state fields document =
    if not (is_empty document.faults)
    then "unknown"
    else if has_part (get_text fields "expected_record_status" "") "stale"
    then "stale"
    else "current"

abbrev label_ref : String → List ParseEvent → String → String
label_ref path [] fixture_id = path <> (":fixture:" <> fixture_id)
label_ref path (e ∷ events) fixture_id =
    if not (is_empty_text e.bracket_label)
    then path <> (":" <> (decimal e.line_number <> (":" <> e.bracket_label)))
    else label_ref path events fixture_id

unfoldable pub subject_ref : ParsedSopDocument → String → String
unfolding decimal
subject_ref document fixture_id = label_ref document.source_path document.events fixture_id

unfoldable pub stem_identifier : String → String
unfolding with_slashes after_last_slash remove_suffix
stem_identifier path = remove_suffix (after_last_slash (with_slashes path)) ".sop"

abbrev fault_of : KernelRecordCandidate → String → String → String → String → ExtractionFault
fault_of c suffix kind path reason = record {
  fault_id = c.record_id <> (":" <> suffix);
  fault_kind = kind;
  source_path = path;
  reason = reason;
}

abbrev parse_fault_of : KernelRecordCandidate → String → ParseFault → ExtractionFault
parse_fault_of c path f =
    fault_of c (f.fault_kind <> (":" <> decimal f.line_number)) f.fault_kind path
      f.downstream_effect

unfoldable pub candidate_faults : KernelRecordCandidate → ParsedSopDocument → List ExtractionFault
unfolding decimal
candidate_faults c document =
    only_if (c.natural_key_state == "unresolved") (
      fault_of c "unresolved_natural_key" "unresolved_natural_key" document.source_path
        "Candidate natural key is unresolved.")
    ++ (map (parse_fault_of c document.source_path) document.faults
        ++ (only_if (is_empty c.source_ref_set) (
              fault_of c "missing_source_ref" "missing_source_ref" document.source_path
                "Candidate has no source references.")
            ++ only_if (is_empty c.lineage_edge_set) (
                fault_of c "missing_lineage_edge" "missing_lineage_edge" document.source_path
                  "Candidate has no lineage edges.")))

abbrev is_unresolved : String → Bool
is_unresolved key = is_empty_text key || key == "unresolved"

-- The upper-case hexadecimal SHA-256 of a text is a parameter.
module _ (text_hash : String → String) where
  unfoldable pub record_id : String → String → String → String → String
  record_id kind path hash fixture_id = text_hash (
      kind
      <> ("|"
          <> (path
              <> ("|" <> (hash <> ("|" <> (fixture_id <> ("|" <> extraction_rule_version))))))))

  -- The one candidate of a document.
  unfoldable pub candidate_of : ParsedSopDocument → KernelRecordCandidate
  unfolding extract_field_map get_text record_kind_for authority_state_for_path status_and_reason
      freshness_state subject_ref stem_identifier record_id put decimal
  candidate_of document =
      let path = document.source_path in
      let fields = extract_field_map document.events in
      let fixture_id = get_text fields "fixture_id" (stem_identifier path) in
      let kind = record_kind_for path fields in
      let natural_key = get_text fields "natural_key" ("source:" <> path) in
      let subject = subject_ref document fixture_id in
      record {
        record_id = record_id kind path document.source_hash fixture_id;
        record_kind = kind;
        natural_key = natural_key;
        natural_key_state = if is_unresolved natural_key then "unresolved" else "resolved";
        subject_ref = subject;
        authority_state = get_text fields "authority_state" (authority_state_for_path path);
        source_ref_set =
            ("source_path:" <> path)
            ∷ ("source_hash:" <> document.source_hash)
            ∷ ("extraction_rule_version:" <> extraction_rule_version)
            ∷ [];
        lineage_edge_set = ("derived_from:" <> path) ∷ ("source_of:" <> subject) ∷ [];
        freshness_state = freshness_state fields document;
        status = (status_and_reason fields document).0;
        blocked_or_fault_reason = (status_and_reason fields document).1;
        payload = put "parse_fault_count" (decimal (length document.faults)) fields;
      }

  unfoldable pub extract_kernel_record_candidates : ParsedSopDocument → ExtractionResult
  unfolding candidate_of candidate_faults
  extract_kernel_record_candidates document = record {
    candidates = candidate_of document ∷ [];
    faults = candidate_faults (candidate_of document) document;
  }
