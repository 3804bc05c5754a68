-- ===== src/Runtime/Contracts/Defaults.antt =====
-- The default contracts of src/langsop/runtime/graph_contracts.py.
use lang_sop.Base.{true, false, List, [], ◌∷◌}
use lang_sop.Runtime.State.{GraphNodeId, GraphPhase, TerminalOutcome}
use lang_sop.Runtime.Contracts.{
  StateField, GraphNodeContract, GraphEdgeContract, EdgeOutcome, terminal, named,
  WholeFieldPlannerGraphContract,
}

abbrev edge : GraphNodeId → EdgeOutcome → GraphNodeId → GraphEdgeContract
edge a o b = record { from_node_id = a; outcome = o; to_node_id = b }

-- A node contract with no requirements but those given; it is terminal on an issue.
abbrev contract :
    GraphNodeId
    → GraphPhase
    → List StateField
    → List StateField
    → List StateField
    → GraphNodeContract
contract n p state refs success = record {
  node_id = n;
  graph_phase = p;
  required_state_field_set = state;
  required_ref_field_set = refs;
  required_for_success_field_set = success;
  terminal_on_issue = true;
}

unfoldable pub default_node_contracts : List GraphNodeContract
default_node_contracts =
    contract GraphNodeId.packet_intake GraphPhase.packet_intake
      (StateField.active_work_packet_ref ∷ StateField.accepted_boundary_pack_ref_set ∷ [])
      (StateField.accepted_boundary_pack_ref_set ∷ []) []
    ∷ contract GraphNodeId.readiness_guard GraphPhase.readiness_guard
        (StateField.active_work_packet_ref ∷ []) [] []
    ∷ contract GraphNodeId.coordination_guard GraphPhase.coordination_guard [] [] []
    ∷ contract GraphNodeId.operator_contract_select GraphPhase.operator_contract_select [] [] []
    ∷ contract GraphNodeId.operator_invocation GraphPhase.operator_invocation [] [] []
    ∷ contract GraphNodeId.trace_recording GraphPhase.trace_recording [] []
        (StateField.operator_trace_ref_set ∷ [])
    ∷ contract GraphNodeId.completion_gate GraphPhase.completion_gate [] []
        (StateField.completion_review_ref ∷ StateField.no_hidden_write_proof_ref ∷ [])
    ∷ contract GraphNodeId.sop_first_interrupt GraphPhase.sop_first_interrupt
        (StateField.pending_interrupt_ref ∷ []) [] []
    ∷ record (contract GraphNodeId.terminal_outcome GraphPhase.terminal_outcome [] [] []) {
      terminal_on_issue = false;
    }
    ∷ []

unfoldable pub default_edge_contracts : List GraphEdgeContract
default_edge_contracts =
    edge GraphNodeId.packet_intake (terminal TerminalOutcome.success) GraphNodeId.readiness_guard
    ∷ edge GraphNodeId.packet_intake (terminal TerminalOutcome.blocked) GraphNodeId.terminal_outcome
    ∷ edge GraphNodeId.packet_intake (terminal TerminalOutcome.stale) GraphNodeId.terminal_outcome
    ∷ edge GraphNodeId.packet_intake (terminal TerminalOutcome.fault) GraphNodeId.terminal_outcome
    ∷ edge GraphNodeId.packet_intake (terminal TerminalOutcome.interrupt)
        GraphNodeId.terminal_outcome
    ∷ edge GraphNodeId.readiness_guard (terminal TerminalOutcome.success)
        GraphNodeId.coordination_guard
    ∷ edge GraphNodeId.readiness_guard (terminal TerminalOutcome.blocked)
        GraphNodeId.terminal_outcome
    ∷ edge GraphNodeId.readiness_guard (terminal TerminalOutcome.stale) GraphNodeId.terminal_outcome
    ∷ edge GraphNodeId.readiness_guard (terminal TerminalOutcome.fault) GraphNodeId.terminal_outcome
    ∷ edge GraphNodeId.readiness_guard (terminal TerminalOutcome.interrupt)
        GraphNodeId.terminal_outcome
    ∷ edge GraphNodeId.coordination_guard (terminal TerminalOutcome.success)
        GraphNodeId.operator_contract_select
    ∷ edge GraphNodeId.coordination_guard (terminal TerminalOutcome.blocked)
        GraphNodeId.terminal_outcome
    ∷ edge GraphNodeId.coordination_guard (terminal TerminalOutcome.stale)
        GraphNodeId.terminal_outcome
    ∷ edge GraphNodeId.coordination_guard (terminal TerminalOutcome.fault)
        GraphNodeId.terminal_outcome
    ∷ edge GraphNodeId.coordination_guard (terminal TerminalOutcome.interrupt)
        GraphNodeId.terminal_outcome
    ∷ edge GraphNodeId.operator_contract_select (terminal TerminalOutcome.success)
        GraphNodeId.operator_invocation
    ∷ edge GraphNodeId.operator_contract_select (terminal TerminalOutcome.blocked)
        GraphNodeId.terminal_outcome
    ∷ edge GraphNodeId.operator_contract_select (terminal TerminalOutcome.stale)
        GraphNodeId.terminal_outcome
    ∷ edge GraphNodeId.operator_contract_select (terminal TerminalOutcome.fault)
        GraphNodeId.terminal_outcome
    ∷ edge GraphNodeId.operator_contract_select (terminal TerminalOutcome.interrupt)
        GraphNodeId.terminal_outcome
    ∷ edge GraphNodeId.operator_invocation (terminal TerminalOutcome.success)
        GraphNodeId.trace_recording
    ∷ edge GraphNodeId.operator_invocation (terminal TerminalOutcome.blocked)
        GraphNodeId.trace_recording
    ∷ edge GraphNodeId.operator_invocation (terminal TerminalOutcome.fault)
        GraphNodeId.trace_recording
    ∷ edge GraphNodeId.operator_invocation (terminal TerminalOutcome.interrupt)
        GraphNodeId.trace_recording
    ∷ edge GraphNodeId.trace_recording (terminal TerminalOutcome.success)
        GraphNodeId.completion_gate
    ∷ edge GraphNodeId.trace_recording (terminal TerminalOutcome.blocked)
        GraphNodeId.terminal_outcome
    ∷ edge GraphNodeId.trace_recording (terminal TerminalOutcome.stale) GraphNodeId.terminal_outcome
    ∷ edge GraphNodeId.trace_recording (terminal TerminalOutcome.fault) GraphNodeId.terminal_outcome
    ∷ edge GraphNodeId.trace_recording (terminal TerminalOutcome.interrupt)
        GraphNodeId.terminal_outcome
    ∷ edge GraphNodeId.completion_gate (named "open_next_slice") GraphNodeId.terminal_outcome
    ∷ edge GraphNodeId.completion_gate (terminal TerminalOutcome.blocked)
        GraphNodeId.terminal_outcome
    ∷ edge GraphNodeId.completion_gate (terminal TerminalOutcome.stale) GraphNodeId.terminal_outcome
    ∷ edge GraphNodeId.completion_gate (terminal TerminalOutcome.fault) GraphNodeId.terminal_outcome
    ∷ edge GraphNodeId.completion_gate (terminal TerminalOutcome.interrupt)
        GraphNodeId.terminal_outcome
    ∷ []

unfoldable pub default_contract : WholeFieldPlannerGraphContract
unfolding default_node_contracts default_edge_contracts
default_contract = record {
  node_contract_set = default_node_contracts;
  edge_contract_set = default_edge_contracts;
  authority_limit = "execution_state_only";
  external_dependency_set = [];
}
