-- ===== src/Operators/Runner.antt =====
-- src/langsop/operators/runner.py: validate a request, classify the outcome, and return a trace.
mod Context
pub mod Outcomes
pub mod Runs
pub mod TraceOf
unfoldable pub use Context.*
use lang_sop.Base.{
  String, ◌<>◌, true, false, not, Option, none, some, List, [], ◌∷◌, ◌++◌, is_empty_text,
  if◌then◌else◌, Bool,
}
use lang_sop.Digest.{Digest}
use lang_sop.Operators.Values.{Object, Mapping, get, to_str, string_tuple}
use lang_sop.Operators.Contracts.{
  OutcomeKind, success, blocked_output, fault_output, sop_first_interrupt, invalid_field,
  IssueSeverity, OperatorContract, OperatorRequest, ContractIssue, issue, ContractValidationResult,
  validate_operator_request,
}
use lang_sop.Operators.Requests.{Resolved, request, refused, request_from_mapping}
use lang_sop.Operators.Traces.{OperatorTraceEvent, build_trace_event, trace_warning_text}
use lang_sop.Operators.Results.{
  Payload, mapping_payload, Called, returned, raised, OperatorFunction, OperatorRunResult,
  RequestInput, built, mapping,
}
use lang_sop.Operators.Classify.{
  outcome_from_validation, primary_issue_for_outcome, success_output_kind, generated_output_refs,
  issue_public_kind, required_resolution,
}

-- The keyword arguments of `run_contract_operator` that have defaults.
pub record RunOptions : Type 0 where
  pub operator_function : Option OperatorFunction
  pub input_records : List Object
  pub run_id : String
  pub event_id : String
  pub parent_event_id : Option String
  pub source_ref_set : Option (List String)
  pub operator_request_ref : Option String
  pub accepted_scope : String

abbrev pub default_options : RunOptions
default_options = record {
  operator_function = none;
  input_records = [];
  run_id = "ir3-operator-run";
  event_id = "ir3-operator-event";
  parent_event_id = none;
  source_ref_set = none;
  operator_request_ref = none;
  accepted_scope = "accepted_activation_boundary";
}

abbrev or_request_id : Option String → String → String
or_request_id none id = id
or_request_id (some ref) id = if is_empty_text ref then id else ref

-- `tuple(source_ref_set or context.source_ref_set)`
abbrev or_context_sources : Option (List String) → List String → List String
or_context_sources none sources = sources
or_context_sources (some []) sources = sources
or_context_sources (some (x ∷ xs)) sources = x ∷ xs

-- `source_ref_set if source_ref_set is not None else ...`
abbrev given_sources : Option (List String) → List String → List String
given_sources none sources = sources
given_sources (some given) sources = given

-- The call in the `try`, with the payload `{}` where there is no function.
abbrev pub call : Option OperatorFunction → List Object → Called
call none records = returned (mapping_payload [])
call (some f) records = f records

abbrev raised_issue : String → String → ContractIssue
raised_issue class_name message =
    issue invalid_field IssueSeverity.fault
      ("operator function raised " <> (class_name <> (": " <> message))) "operator_function"

module _ (digest : Digest) (c : OperatorContract) (o : RunOptions) where
  -- `_trace_from_parts`
  unfoldable pub trace_from_parts :
      RequestContext → OutcomeKind → List String → List ContractIssue → OperatorTraceEvent
  unfolding build_trace_event
  trace_from_parts x outcome generated issues = build_trace_event digest (record {
    run_id = o.run_id;
    event_id = o.event_id;
    parent_event_id = o.parent_event_id;
    slice_id = x.slice_id;
    operator_contract_id = c.operator_id;
    operator_contract_version = c.operator_version;
    operator_request_ref = x.request_ref;
    input_ref_set = x.input_ref_set;
    authority_basis_ref_set = x.authority_basis_ref_set;
    source_ref_set = x.source_ref_set;
    outcome_kind = outcome;
    generated_output_ref_set = generated;
    issue_set = issues;
  })

  -- A trace with the outcome and the issues, and the result that carries it.
  unfoldable pub refuse : RequestContext → OutcomeKind → List ContractIssue → OperatorRunResult
  unfolding trace_from_parts blocked_or_fault_result
  refuse x outcome issues =
      blocked_or_fault_result x.request_ref outcome (trace_from_parts x outcome [] issues) issues
        x.input_ref_set x.authority_basis_ref_set

  -- The request's reference and the sources that its trace names.
  unfoldable pub context_of_request : OperatorRequest → RequestContext
  context_of_request r = record {
    request_ref = or_request_id o.operator_request_ref r.request_id;
    slice_id = r.slice_id;
    input_ref_set = r.input_ref_set;
    authority_basis_ref_set = r.authority_basis_ref_set;
    source_ref_set = given_sources o.source_ref_set (r.authority_basis_ref_set ++ r.input_ref_set);
  }

  unfoldable pub succeed : OperatorRequest → Payload → OperatorRunResult
  unfolding trace_from_parts context_of_request generated_output_refs success_output_kind
  succeed r payload =
      let x = context_of_request r in
      let refs = generated_output_refs payload in
      let trace = trace_from_parts x success refs [] in
      record (bare_result x.request_ref true success trace []) {
        operator_result = some (record {
          result_id = "operator_result:" <> trace.trace_id;
          output_record_kind = success_output_kind r c;
          payload = payload;
          generated_output_ref_set = refs;
          result_status = "generated_projection_only";
          non_authority_warning = trace_warning_text;
        });
        generated_output_ref_set = refs;
      }

  unfoldable pub finish_call : OperatorRequest → Called → OperatorRunResult
  unfolding succeed refuse context_of_request
  finish_call r (returned payload) = succeed r payload
  finish_call r (raised class_name message) =
      refuse (context_of_request r) fault_output (raised_issue class_name message ∷ [])

  unfoldable pub run_request : OperatorRequest → OperatorRunResult
  unfolding validate_operator_request outcome_from_validation refuse context_of_request finish_call
  run_request r =
      let v = validate_operator_request r c o.accepted_scope in
      if not v.accepted
      then refuse (context_of_request r) (outcome_from_validation v) v.issues
      else finish_call r (call o.operator_function o.input_records)

  unfoldable pub run_unresolved : RequestContext → ContractValidationResult → OperatorRunResult
  unfolding outcome_from_validation refuse
  run_unresolved x v =
      refuse (record x { source_ref_set = or_context_sources o.source_ref_set x.source_ref_set })
        (outcome_from_validation v) v.issues

  abbrev run_resolved : RequestInput → Resolved → OperatorRunResult
  run_resolved q (request r) = run_request r
  run_resolved q (refused v) = run_unresolved (request_context_from_mapping q) v

  unfoldable pub run_contract_operator : RequestInput → OperatorRunResult
  unfolding resolve_request run_request run_unresolved request_context_from_mapping
  run_contract_operator q = run_resolved q (resolve_request q)
