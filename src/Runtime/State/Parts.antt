-- ===== src/Runtime/State/Parts.antt =====
-- `graph_state_from_parts` and `NodeResult` of src/langsop/runtime/graph_state.py.
use lang_sop.Base.{◌≡◌, refl, String, ◌<>◌, Option, List, ◌==◌, if◌then◌else◌}
use lang_sop.Operators.Values.{Converted, value, raised, ◌>>=◌, text_repr}
use lang_sop.Runtime.State.{
  GraphPhase, phase_value, GraphNodeId, node_value, TerminalOutcome, GraphState,
  non_authority_warning_text,
}

pub record NodeResult : Type 0 where
  pub node_id : GraphNodeId
  pub terminal_outcome : Option TerminalOutcome
  pub output_record_ref_set : List String
  pub operator_trace_ref_set : List String
  pub proof_result_ref_set : List String
  pub stale_projection_ref_set : List String
  pub fault_record_ref_set : List String
  pub pending_interrupt_ref : Option String
  pub non_authority_warning : String

-- The keyword arguments of `graph_state_from_parts`. A phase or a node is given by its text, which
-- a member of the enumeration is too.
pub record GraphStateParts : Type 0 where
  pub active_work_packet_ref : String
  pub accepted_boundary_pack_ref_set : List String
  pub graph_phase : String
  pub current_node_id : String
  pub input_record_ref_set : List String
  pub output_record_ref_set : List String
  pub operator_trace_ref_set : List String
  pub proof_result_ref_set : List String
  pub stale_projection_ref_set : List String
  pub fault_record_ref_set : List String
  pub coordination_claim_ref_set : List String
  pub source_ref_set : List String
  pub lineage_edge_set : List String
  pub pending_interrupt_ref : Option String
  pub checkpoint_ref : Option String
  pub completion_review_ref : Option String
  pub no_hidden_write_proof_ref : Option String

-- `GraphPhase(text)`
unfoldable pub phase_of : String → Converted GraphPhase
unfolding text_repr
phase_of s =
    if s == "packet_intake"
    then value GraphPhase.packet_intake
    else if s == "readiness_guard"
    then value GraphPhase.readiness_guard
    else if s == "coordination_guard"
    then value GraphPhase.coordination_guard
    else if s == "operator_contract_select"
    then value GraphPhase.operator_contract_select
    else if s == "operator_invocation"
    then value GraphPhase.operator_invocation
    else if s == "trace_recording"
    then value GraphPhase.trace_recording
    else if s == "completion_gate"
    then value GraphPhase.completion_gate
    else if s == "sop_first_interrupt"
    then value GraphPhase.sop_first_interrupt
    else if s == "terminal_outcome"
    then value GraphPhase.terminal_outcome
    else raised (text_repr s <> " is not a valid GraphPhase")

-- `GraphNodeId(text)`
unfoldable pub node_of : String → Converted GraphNodeId
unfolding text_repr
node_of s =
    if s == "packet_intake"
    then value GraphNodeId.packet_intake
    else if s == "readiness_guard"
    then value GraphNodeId.readiness_guard
    else if s == "coordination_guard"
    then value GraphNodeId.coordination_guard
    else if s == "operator_contract_select"
    then value GraphNodeId.operator_contract_select
    else if s == "operator_invocation"
    then value GraphNodeId.operator_invocation
    else if s == "trace_recording"
    then value GraphNodeId.trace_recording
    else if s == "completion_gate"
    then value GraphNodeId.completion_gate
    else if s == "sop_first_interrupt"
    then value GraphNodeId.sop_first_interrupt
    else if s == "terminal_outcome"
    then value GraphNodeId.terminal_outcome
    else raised (text_repr s <> " is not a valid GraphNodeId")

abbrev state_of : GraphStateParts → GraphPhase → GraphNodeId → GraphState
state_of p phase node = record {
  active_work_packet_ref = p.active_work_packet_ref;
  accepted_boundary_pack_ref_set = p.accepted_boundary_pack_ref_set;
  graph_phase = phase;
  current_node_id = node;
  input_record_ref_set = p.input_record_ref_set;
  output_record_ref_set = p.output_record_ref_set;
  operator_trace_ref_set = p.operator_trace_ref_set;
  proof_result_ref_set = p.proof_result_ref_set;
  stale_projection_ref_set = p.stale_projection_ref_set;
  fault_record_ref_set = p.fault_record_ref_set;
  coordination_claim_ref_set = p.coordination_claim_ref_set;
  source_ref_set = p.source_ref_set;
  lineage_edge_set = p.lineage_edge_set;
  pending_interrupt_ref = p.pending_interrupt_ref;
  checkpoint_ref = p.checkpoint_ref;
  completion_review_ref = p.completion_review_ref;
  no_hidden_write_proof_ref = p.no_hidden_write_proof_ref;
  authority_limit = "execution_state_only";
  non_authority_warning = non_authority_warning_text;
}

unfoldable pub graph_state_from_parts : GraphStateParts → Converted GraphState
unfolding phase_of node_of
graph_state_from_parts p = phase_of p.graph_phase >>= λ phase.
    node_of p.current_node_id >>= λ node. value (state_of p phase node)

phase_of-value : (q : GraphPhase) → phase_of (phase_value q) ≡ value q
unfolding phase_of phase_value
phase_of-value GraphPhase.packet_intake = refl
phase_of-value GraphPhase.readiness_guard = refl
phase_of-value GraphPhase.coordination_guard = refl
phase_of-value GraphPhase.operator_contract_select = refl
phase_of-value GraphPhase.operator_invocation = refl
phase_of-value GraphPhase.trace_recording = refl
phase_of-value GraphPhase.completion_gate = refl
phase_of-value GraphPhase.sop_first_interrupt = refl
phase_of-value GraphPhase.terminal_outcome = refl

node_of-value : (n : GraphNodeId) → node_of (node_value n) ≡ value n
unfolding node_of node_value
node_of-value GraphNodeId.packet_intake = refl
node_of-value GraphNodeId.readiness_guard = refl
node_of-value GraphNodeId.coordination_guard = refl
node_of-value GraphNodeId.operator_contract_select = refl
node_of-value GraphNodeId.operator_invocation = refl
node_of-value GraphNodeId.trace_recording = refl
node_of-value GraphNodeId.completion_gate = refl
node_of-value GraphNodeId.sop_first_interrupt = refl
node_of-value GraphNodeId.terminal_outcome = refl

-- The parts of a state, its phase and node by their texts.
pub parts_of : GraphState → GraphStateParts
unfolding phase_value node_value
parts_of s = record {
  active_work_packet_ref = s.active_work_packet_ref;
  accepted_boundary_pack_ref_set = s.accepted_boundary_pack_ref_set;
  graph_phase = phase_value s.graph_phase;
  current_node_id = node_value s.current_node_id;
  input_record_ref_set = s.input_record_ref_set;
  output_record_ref_set = s.output_record_ref_set;
  operator_trace_ref_set = s.operator_trace_ref_set;
  proof_result_ref_set = s.proof_result_ref_set;
  stale_projection_ref_set = s.stale_projection_ref_set;
  fault_record_ref_set = s.fault_record_ref_set;
  coordination_claim_ref_set = s.coordination_claim_ref_set;
  source_ref_set = s.source_ref_set;
  lineage_edge_set = s.lineage_edge_set;
  pending_interrupt_ref = s.pending_interrupt_ref;
  checkpoint_ref = s.checkpoint_ref;
  completion_review_ref = s.completion_review_ref;
  no_hidden_write_proof_ref = s.no_hidden_write_proof_ref;
}

-- The state that is built from the parts of any state is that state, except that its authority limit
-- and its warning are the fixed ones.
pub graph_state_from_parts-parts_of :
    (s : GraphState)
    → graph_state_from_parts (parts_of s)
      ≡ value (record s {
        authority_limit = "execution_state_only";
        non_authority_warning = non_authority_warning_text;
      })
unfolding graph_state_from_parts parts_of
graph_state_from_parts-parts_of s =
    rw (phase_of-value s.graph_phase, node_of-value s.current_node_id) refl
