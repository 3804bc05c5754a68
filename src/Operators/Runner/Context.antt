-- ===== src/Operators/Runner/Context.antt =====
-- The request's context and the refused results of src/langsop/operators/runner.py.
use lang_sop.Base.{String, ◌<>◌, false, none, some, List, [], ◌++◌, Bool}
use lang_sop.Operators.Values.{Mapping, get, to_str, string_tuple}
use lang_sop.Operators.Contracts.{
  OutcomeKind, blocked_output, fault_output, sop_first_interrupt, ContractIssue,
}
use lang_sop.Operators.Requests.{Resolved, request, request_from_mapping}
use lang_sop.Operators.Traces.{OperatorTraceEvent, trace_warning_text}
use lang_sop.Operators.Results.{OperatorRunResult, RequestInput, built, mapping}
use lang_sop.Operators.Classify.{primary_issue_for_outcome, issue_public_kind, required_resolution}

unfoldable pub resolve_request : RequestInput → Resolved
unfolding request_from_mapping
resolve_request (built r) = request r
resolve_request (mapping m) = request_from_mapping m

pub record RequestContext : Type 0 where
  pub request_ref : String
  pub slice_id : String
  pub input_ref_set : List String
  pub authority_basis_ref_set : List String
  pub source_ref_set : List String

abbrev str_or : Mapping → String → String → String
str_or m key default = elim (get m key) [ none ↦ default | some v ↦ to_str v ]

abbrev tuple_or_nil : Mapping → String → List String
tuple_or_nil m key = elim (get m key) [ none ↦ [] | some v ↦ string_tuple v ]

unfoldable pub request_context_from_mapping : RequestInput → RequestContext
unfolding get to_str string_tuple
request_context_from_mapping (built r) = record {
  request_ref = r.request_id;
  slice_id = r.slice_id;
  input_ref_set = r.input_ref_set;
  authority_basis_ref_set = r.authority_basis_ref_set;
  source_ref_set = r.authority_basis_ref_set ++ r.input_ref_set;
}
request_context_from_mapping (mapping m) = record {
  request_ref = str_or m "request_id" "invalid_operator_request";
  slice_id = str_or m "slice_id" "unknown_slice";
  input_ref_set = tuple_or_nil m "input_ref_set";
  authority_basis_ref_set = tuple_or_nil m "authority_basis_ref_set";
  source_ref_set = tuple_or_nil m "authority_basis_ref_set" ++ tuple_or_nil m "input_ref_set";
}

-- A result with none of its optional parts.
abbrev pub bare_result :
    String → Bool → OutcomeKind → OperatorTraceEvent → List ContractIssue → OperatorRunResult
bare_result request_ref accepted outcome trace issues = record {
  request_ref = request_ref;
  accepted = accepted;
  outcome_kind = outcome;
  operator_trace = trace;
  issue_set = issues;
  operator_result = none;
  runner_refusal = none;
  fault_record = none;
  sop_first_interrupt = none;
  generated_output_ref_set = [];
}

unfoldable pub blocked_or_fault_result :
    String
    → OutcomeKind
    → OperatorTraceEvent
    → List ContractIssue
    → List String
    → List String
    → OperatorRunResult
unfolding primary_issue_for_outcome issue_public_kind required_resolution
blocked_or_fault_result request_ref outcome trace issues inputs basis =
    let primary = primary_issue_for_outcome issues outcome in
    elim outcome [
      | sop_first_interrupt ↦
          record (bare_result request_ref false sop_first_interrupt trace issues) {
            sop_first_interrupt = some (record {
              interrupt_id = "sop_first_interrupt:" <> trace.trace_id;
              interrupt_kind = issue_public_kind primary;
              reason = primary.reason;
              required_judgment = "return to SOP authority for semantic or identity judgment";
              operator_trace_ref = trace.trace_id;
              outcome_kind = sop_first_interrupt;
              non_authority_warning = trace_warning_text;
            });
          }
      | blocked_output ↦ record (bare_result request_ref false blocked_output trace issues) {
        runner_refusal = some (record {
          refusal_id = "runner_refusal:" <> trace.trace_id;
          blocked_reason = issue_public_kind primary;
          required_resolution = required_resolution primary;
          input_ref_set = inputs;
          authority_basis_ref_set = basis;
          operator_trace_ref = trace.trace_id;
          outcome_kind = blocked_output;
          non_authority_warning = trace_warning_text;
        });
      }
      | _ ↦ record (bare_result request_ref false fault_output trace issues) {
        fault_record = some (record {
          fault_id = "fault_record:" <> trace.trace_id;
          fault_kind = issue_public_kind primary;
          reason = primary.reason;
          evidence_ref_set = basis ++ inputs;
          operator_trace_ref = trace.trace_id;
          outcome_kind = fault_output;
          non_authority_warning = trace_warning_text;
        });
      }
    ]
