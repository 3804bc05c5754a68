-- ===== src/Tests/GraphRuns.antt =====
-- The theorems of the graph path at runs that succeed and that are interrupted.
use lang_sop.Base.{◌≡◌, refl, true, ◌↔◌, [], ◌∷◌}
use lang_sop.Operators.Results.{RequestInput}
use lang_sop.Runtime.State.{
  GraphNodeId, GraphPhase, TerminalOutcome, is_fault, is_interrupt, same_phase,
}
use lang_sop.Runtime.Contracts.Defaults.{default_contract}
use lang_sop.Runtime.Path.{run_whole_field_planner_graph}
use lang_sop.Runtime.Path.Ends.{Completed}
use lang_sop.Runtime.Path.Accepted.{run_accepted_iff}
use lang_sop.Runtime.Path.Gates.{IsGated, run_accepted-IsGated}
use lang_sop.Runtime.Path.Walks.{is_walk, run-HasWalk, run_accepted-nodes}
use lang_sop.Runtime.Path.Interruption.{IsClassified, run-IsClassified}
use lang_sop.Tests.Samples.{one_digest, good_run, contested_run, ready_state}

good_run_accepted : (run_whole_field_planner_graph one_digest good_run).accepted ≡ true
unfolding run_whole_field_planner_graph default_contract
good_run_accepted = refl

contested_run_outcome :
    (run_whole_field_planner_graph one_digest contested_run).terminal_outcome
    ≡ TerminalOutcome.interrupt
unfolding run_whole_field_planner_graph default_contract is_fault is_interrupt
contested_run_outcome = refl

run_accepted_iff_example :
    ((run_whole_field_planner_graph one_digest good_run).accepted ≡ true)
    ↔ ((q : RequestInput) × Completed one_digest good_run q)
run_accepted_iff_example = run_accepted_iff one_digest good_run

run_accepted-IsGated_example : (q : RequestInput) × IsGated one_digest good_run q
run_accepted-IsGated_example = run_accepted-IsGated one_digest good_run good_run_accepted

run-HasWalk_example :
    is_walk default_contract
      (run_whole_field_planner_graph one_digest contested_run).terminal_outcome
      (run_whole_field_planner_graph one_digest contested_run).node_visit_set
    ≡ true
unfolding same_phase
run-HasWalk_example = run-HasWalk one_digest contested_run refl

run_accepted-nodes_example :
    (run_whole_field_planner_graph one_digest good_run).node_visit_set
    ≡ GraphNodeId.packet_intake ∷ GraphNodeId.readiness_guard ∷ GraphNodeId.coordination_guard
      ∷ GraphNodeId.operator_contract_select ∷ GraphNodeId.operator_invocation
      ∷ GraphNodeId.trace_recording ∷ GraphNodeId.completion_gate ∷ GraphNodeId.terminal_outcome
      ∷ []
run_accepted-nodes_example = run_accepted-nodes one_digest good_run good_run_accepted

run-IsClassified_example :
    IsClassified one_digest contested_run (run_whole_field_planner_graph one_digest contested_run)
run-IsClassified_example = run-IsClassified one_digest contested_run

-- A state in the terminal phase that is refused at packet intake visits that node only.
refused_terminal_nodes :
    (run_whole_field_planner_graph one_digest (record good_run {
      graph_state = record ready_state {
        graph_phase = GraphPhase.terminal_outcome;
        active_work_packet_ref = "";
      };
    })).node_visit_set
    ≡ GraphNodeId.packet_intake ∷ []
unfolding run_whole_field_planner_graph default_contract is_fault is_interrupt same_phase
refused_terminal_nodes = refl
