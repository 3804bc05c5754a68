-- ===== src/Operators/Traces.antt =====
-- src/langsop/operators/traces.py: trace events, which are projections and hold no authority.
pub mod Shape
use lang_sop.Base.{
  String, Bool, false, not, ◌&&◌, ◌||◌, Option, none, some, List, [], ◌∷◌, ◌++◌, ◌==◌, find?,
  contains, only_if, is_empty, is_some, if◌then◌else◌,
}
use lang_sop.Text.{slice_to}
use lang_sop.Text.Sets.{sorted}
use lang_sop.Digest.{Digest, text_value, texts_value}
use lang_sop.Operators.Values.{Object, text, Mapping, get}
use lang_sop.Operators.Contracts.{
  OutcomeKind, ContractIssue, issue_kind_value, is_fault, is_blocked, is_interrupt,
}

abbrev pub trace_schema_version_text : String
trace_schema_version_text = "ir3-operator-trace-event-v1"

abbrev pub trace_warning_text : String
trace_warning_text =
    "generated operator traces are projection-only evidence and do not replace signed SOP authority"

pub record OperatorTraceEvent : Type 0 where
  pub trace_id : String
  pub trace_uuid : String
  pub run_id : String
  pub event_id : String
  pub slice_id : String
  pub operator_contract_id : String
  pub operator_contract_version : String
  pub operator_request_ref : String
  pub input_ref_set : List String
  pub authority_basis_ref_set : List String
  pub source_ref_set : List String
  pub outcome_kind : OutcomeKind
  pub generated_output_ref_set : List String
  pub parent_event_id : Option String
  pub refusal_reason : Option String
  pub fault_code : Option String
  pub trace_schema_version : String
  pub trace_status : String
  pub non_authority_warning : String

pub record TraceValidationResult : Type 0 where
  pub accepted : Bool
  pub missing_field_set : List String

abbrev pub required_trace_fields : List String
required_trace_fields =
    "trace_id" ∷ "trace_uuid" ∷ "run_id" ∷ "event_id" ∷ "slice_id" ∷ "operator_contract_id"
    ∷ "operator_contract_version" ∷ "operator_request_ref" ∷ "input_ref_set"
    ∷ "authority_basis_ref_set" ∷ "source_ref_set" ∷ "outcome_kind" ∷ "generated_output_ref_set"
    ∷ "non_authority_warning" ∷ []

-- What `build_trace_event` is called with.
pub record TraceParts : Type 0 where
  pub run_id : String
  pub event_id : String
  pub parent_event_id : Option String
  pub slice_id : String
  pub operator_contract_id : String
  pub operator_contract_version : String
  pub operator_request_ref : String
  pub input_ref_set : List String
  pub authority_basis_ref_set : List String
  pub source_ref_set : List String
  pub outcome_kind : OutcomeKind
  pub generated_output_ref_set : List String
  pub issue_set : List ContractIssue

abbrev reason_of : Option ContractIssue → Option String
reason_of none = none
reason_of (some i) = some i.reason

abbrev code_of : Option ContractIssue → Option String
code_of none = none
code_of (some i) = some (issue_kind_value i.issue_kind)

abbrev is_refusal : ContractIssue → Bool
is_refusal i = is_blocked i || is_interrupt i

module _ (digest : Digest) where
  unfoldable pub deterministic_trace_id : String → String → String → List String → String → String
  unfolding sorted
  deterministic_trace_id contract_id version request_ref sources schema = digest (
      ("operator_contract_id", text_value contract_id)
      ∷ ("operator_contract_version", text_value version)
      ∷ ("operator_request_ref", text_value request_ref)
      ∷ ("source_ref_set", texts_value (sorted sources))
      ∷ ("trace_schema_version", text_value schema)
      ∷ [])

  unfoldable pub build_trace_event : TraceParts → OperatorTraceEvent
  unfolding deterministic_trace_id slice_to find? is_fault is_blocked is_interrupt issue_kind_value
  build_trace_event p =
      let trace_id =
        deterministic_trace_id p.operator_contract_id p.operator_contract_version
          p.operator_request_ref p.source_ref_set trace_schema_version_text in
      record {
        trace_id = trace_id;
        trace_uuid = slice_to 32 trace_id;
        run_id = p.run_id;
        event_id = p.event_id;
        slice_id = p.slice_id;
        operator_contract_id = p.operator_contract_id;
        operator_contract_version = p.operator_contract_version;
        operator_request_ref = p.operator_request_ref;
        input_ref_set = p.input_ref_set;
        authority_basis_ref_set = p.authority_basis_ref_set;
        source_ref_set = p.source_ref_set;
        outcome_kind = p.outcome_kind;
        generated_output_ref_set = p.generated_output_ref_set;
        parent_event_id = p.parent_event_id;
        refusal_reason = reason_of (find? is_refusal p.issue_set);
        fault_code = code_of (find? is_fault p.issue_set);
        trace_schema_version = trace_schema_version_text;
        trace_status = "generated_projection_only";
        non_authority_warning = trace_warning_text;
      }

unfoldable pub absent_fields : Mapping → List String → List String
unfolding get
absent_fields m [] = []
absent_fields m (name ∷ names) =
    let rest = absent_fields m names in if is_some (get m name) then rest else name ∷ rest

-- `trace.get("non_authority_warning") == NON_AUTHORITY_WARNING`
abbrev pub is_warning : Option Object → Bool
is_warning (some (text s)) = s == trace_warning_text
is_warning _ = false

unfoldable pub validate_trace_mapping : Mapping → TraceValidationResult
unfolding absent_fields get contains
validate_trace_mapping m =
    let absent = absent_fields m required_trace_fields in
    let bad =
      not (is_warning (get m "non_authority_warning"))
      && not (contains "non_authority_warning" absent) in
    let missing = absent ++ only_if bad "non_authority_warning" in
    record { accepted = is_empty missing; missing_field_set = missing }

pub record GeneratedOutputManifest : Type 0 where
  pub manifest_id : String
  pub generated_output_root : String
  pub generated_output_ref_set : List String
  pub non_authority_warning : String
  pub manifest_status : String

unfoldable pub build_generated_output_manifest :
    String → String → List String → GeneratedOutputManifest
build_generated_output_manifest manifest_id root refs = record {
  manifest_id = manifest_id;
  generated_output_root = root;
  generated_output_ref_set = refs;
  non_authority_warning = trace_warning_text;
  manifest_status = "generated_projection_only";
}
