-- ===== src/Operators/Results.antt =====
-- The records of src/langsop/operators/runner.py.
use lang_sop.Base.{String, Bool, Option, List}
use lang_sop.Operators.Values.{Object, Mapping}
use lang_sop.Operators.Contracts.{OutcomeKind, OperatorRequest, ContractIssue}
use lang_sop.Operators.Traces.{OperatorTraceEvent}

-- What an operator function returns: a mapping or another value, or the exception that it raised,
-- by its class and text.
pub data Payload : Type 0 where
  mapping_payload : Mapping → Payload
  other_payload : Object → Payload

pub data Called : Type 0 where
  returned : Payload → Called
  raised : String → String → Called

abbrev pub OperatorFunction : Type 0
OperatorFunction = List Object → Called

pub record OperatorResult : Type 0 where
  pub result_id : String
  pub output_record_kind : String
  pub payload : Payload
  pub generated_output_ref_set : List String
  pub result_status : String
  pub non_authority_warning : String

pub record RunnerRefusal : Type 0 where
  pub refusal_id : String
  pub blocked_reason : String
  pub required_resolution : String
  pub input_ref_set : List String
  pub authority_basis_ref_set : List String
  pub operator_trace_ref : String
  pub outcome_kind : OutcomeKind
  pub non_authority_warning : String

pub record FaultRecord : Type 0 where
  pub fault_id : String
  pub fault_kind : String
  pub reason : String
  pub evidence_ref_set : List String
  pub operator_trace_ref : String
  pub outcome_kind : OutcomeKind
  pub non_authority_warning : String

pub record SopFirstInterrupt : Type 0 where
  pub interrupt_id : String
  pub interrupt_kind : String
  pub reason : String
  pub required_judgment : String
  pub operator_trace_ref : String
  pub outcome_kind : OutcomeKind
  pub non_authority_warning : String

pub record OperatorRunResult : Type 0 where
  pub request_ref : String
  pub accepted : Bool
  pub outcome_kind : OutcomeKind
  pub operator_trace : OperatorTraceEvent
  pub issue_set : List ContractIssue
  pub operator_result : Option OperatorResult
  pub runner_refusal : Option RunnerRefusal
  pub fault_record : Option FaultRecord
  pub sop_first_interrupt : Option SopFirstInterrupt
  pub generated_output_ref_set : List String

-- `OperatorRequest | Mapping[str, object]`
pub data RequestInput : Type 0 where
  built : OperatorRequest → RequestInput
  mapping : Mapping → RequestInput
