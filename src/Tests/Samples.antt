-- ===== src/Tests/Samples.antt =====
-- The inputs of the examples: a request, a contract, a graph state and a run that succeeds.
use lang_sop.Base.{true, false, none, some, [], ◌∷◌}
use lang_sop.Digest.{Digest}
use lang_sop.Operators.Values.{text}
use lang_sop.Operators.Contracts.{OutcomeKind, OperatorContract, OperatorRequest}
use lang_sop.Operators.Results.{OperatorFunction, returned, raised, mapping_payload, built}
use lang_sop.Operators.Runner.{RunOptions, default_options}
use lang_sop.Runtime.State.{GraphPhase, GraphNodeId, GraphState, non_authority_warning_text}
use lang_sop.Runtime.Checkpoints.{CheckpointEnvelope, build_checkpoint_envelope}
use lang_sop.Runtime.Runner.{default_policy}
use lang_sop.Runtime.Contracts.Defaults.{default_contract}
use lang_sop.Runtime.Path.{RunInput}

-- A digest that gives every payload the same text.
abbrev pub one_digest : Digest
one_digest payload = "d1"

abbrev pub planner : OperatorContract
planner = record {
  operator_id = "planner";
  operator_version = "1";
  output_record_kind_set = "plan" ∷ "report" ∷ [];
  authority_basis_ref_set = "sop/basis" ∷ [];
}

abbrev pub good_request : OperatorRequest
good_request = record {
  request_id = "r1";
  request_uuid = "u1";
  slice_id = "s1";
  requested_operator_id = "planner";
  requested_operator_version = "1";
  requested_outcome_kind = OutcomeKind.success;
  input_ref_set = "in/1" ∷ [];
  authority_basis_ref_set = "sop/basis" ∷ [];
  expected_output_kind_set = "plan" ∷ [];
  generated_output_policy_ref = "policy";
  safety_limit_ref = "limit";
  refusal_allowed = true;
  completion_review_ref = some "review";
  model_route = none;
  authority_basis_state = "current";
  input_identity_state = "resolved";
  requested_scope = "accepted_activation_boundary";
  unsafe_operation_set = [];
  generated_projection_presented_as_authority = false;
}

-- An unsafe operation, an undeclared output and another scope.
abbrev pub bad_request : OperatorRequest
bad_request = record good_request {
  expected_output_kind_set = "plan" ∷ "order" ∷ [];
  requested_scope = "elsewhere";
  unsafe_operation_set = "dispatch" ∷ [];
}

abbrev pub plan_function : OperatorFunction
plan_function records = returned (mapping_payload (("plan", text "p") ∷ []))

abbrev pub failing_function : OperatorFunction
failing_function records = raised "ValueError" "no plan"

abbrev pub with_plan : RunOptions
with_plan = record default_options { operator_function = some plan_function }

abbrev pub ready_state : GraphState
ready_state = record {
  active_work_packet_ref = "packet/1";
  accepted_boundary_pack_ref_set = "pack/1" ∷ [];
  graph_phase = GraphPhase.packet_intake;
  current_node_id = GraphNodeId.packet_intake;
  input_record_ref_set = "in/1" ∷ [];
  output_record_ref_set = [];
  operator_trace_ref_set = [];
  proof_result_ref_set = "proof/1" ∷ [];
  stale_projection_ref_set = [];
  fault_record_ref_set = [];
  coordination_claim_ref_set = "claim/accepted" ∷ [];
  source_ref_set = [];
  lineage_edge_set = [];
  pending_interrupt_ref = none;
  checkpoint_ref = none;
  completion_review_ref = some "review/1";
  no_hidden_write_proof_ref = some "proof/hidden";
  authority_limit = "execution_state_only";
  non_authority_warning = non_authority_warning_text;
}

abbrev pub envelope : CheckpointEnvelope
envelope =
    build_checkpoint_envelope one_digest "f1" "packet/1" ("b1" ∷ "b2" ∷ []) "packet_intake"
      "packet_intake" false false none

abbrev pub good_run : RunInput
good_run = record {
  graph_state = ready_state;
  operator_contract = planner;
  operator_request = some (built good_request);
  operator_function = some plan_function;
  input_records = [];
  checkpoint = none;
  policy = default_policy;
  graph_contract = default_contract;
}

-- The same run with a contested claim, which interrupts it.
abbrev pub contested_run : RunInput
contested_run = record good_run {
  graph_state = record ready_state { coordination_claim_ref_set = "claim/CONTESTED" ∷ [] };
}
