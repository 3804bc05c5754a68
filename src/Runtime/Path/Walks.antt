-- ===== src/Runtime/Path/Walks.antt =====
-- The nodes that a run visits are a walk of the graph contract.
use lang_sop.Base.{◌≡◌, refl, ◌∙◌, sym, ap, Bool, true, false, ◌&&◌, List, [], ◌∷◌, ◌++◌, arith}
use lang_sop.Digest.{Digest}
use lang_sop.Runtime.State.{GraphNodeId, GraphPhase, same_phase, TerminalOutcome}
use lang_sop.Runtime.Contracts.{
  EdgeOutcome, terminal, named, WholeFieldPlannerGraphContract, validate_edge_transition,
}
use lang_sop.Runtime.Contracts.Defaults.{default_contract}
use lang_sop.Runtime.Runner.{
  GraphRunResult, is_success, close_visits, append_visit, terminal_result,
}
use lang_sop.Runtime.Path.{RunInput, run_whole_field_planner_graph}
use lang_sop.Runtime.Path.Ends.{
  Stop, at_packet, at_readiness, at_coordination, at_select, at_trace, at_completion, nodes_to,
  Ending, ending_result, stop_of, trail, completed, packet_refused, checkpoint_refused,
  readiness_refused, coordination_refused, select_refused, trace_refused, operator_refused,
  completion_refused,
}
use lang_sop.Runtime.Path.Stages.{run-ends}
use lang_sop.Runtime.Path.Accepted.{is_completed, accepted-ending}

-- The outcome of the edge by which a walk leaves its last node but one.
abbrev pub closing : GraphNodeId → TerminalOutcome → EdgeOutcome
closing GraphNodeId.completion_gate TerminalOutcome.success = named "open_next_slice"
closing n o = terminal o

abbrev pub takes : WholeFieldPlannerGraphContract → GraphNodeId → EdgeOutcome → GraphNodeId → Bool
takes g a o b = (validate_edge_transition g a o b).accepted

-- Every node but the last two is left by success.
unfoldable pub is_walk : WholeFieldPlannerGraphContract → TerminalOutcome → List GraphNodeId → Bool
unfolding validate_edge_transition
is_walk g o [] = true
is_walk g o (a ∷ []) = true
is_walk g o (a ∷ b ∷ []) = takes g a (closing a o) b
is_walk g o (a ∷ b ∷ c ∷ ns) =
    takes g a (terminal TerminalOutcome.success) b && is_walk g o (b ∷ c ∷ ns)

closed_nodes :
    (p : GraphPhase) (s : Stop)
    → same_phase p GraphPhase.terminal_outcome ≡ false
    → (close_visits (trail p s)).nodes
      ≡ GraphNodeId.packet_intake ∷ nodes_to s ++ GraphNodeId.terminal_outcome ∷ []
unfolding close_visits append_visit
closed_nodes p at_packet h = rw h refl
closed_nodes p at_readiness h = refl
closed_nodes p at_coordination h = refl
closed_nodes p at_select h = refl
closed_nodes p at_trace h = refl
closed_nodes p at_completion h = refl

unfoldable is_walk_to : Stop → TerminalOutcome → Bool
unfolding is_walk default_contract
is_walk_to s o =
    is_walk default_contract o
      (GraphNodeId.packet_intake ∷ nodes_to s ++ GraphNodeId.terminal_outcome ∷ [])

refusals_walk :
    (s : Stop)
    → (is_walk_to s TerminalOutcome.blocked
        && (is_walk_to s TerminalOutcome.stale
            && (is_walk_to s TerminalOutcome.fault && is_walk_to s TerminalOutcome.interrupt)))
      ≡ true
unfolding is_walk_to
refusals_walk at_packet = refl
refusals_walk at_readiness = refl
refusals_walk at_coordination = refl
refusals_walk at_select = refl
refusals_walk at_trace = refl
refusals_walk at_completion = refl

is_walk_refused : (s : Stop) (o : TerminalOutcome) → is_success o ≡ false → is_walk_to s o ≡ true
is_walk_refused s o h = ground (arith, refusals_walk s)

success_walk : is_walk_to at_completion TerminalOutcome.success ≡ true
unfolding is_walk_to
success_walk = refl

is_walk_of_stop :
    (s : Stop) (o : TerminalOutcome)
    → (is_success o ≡ true → s ≡ at_completion)
    → is_walk_to s o ≡ true
is_walk_of_stop s TerminalOutcome.success h =
    ap (λ t. is_walk_to t TerminalOutcome.success) (h refl) ∙ success_walk
is_walk_of_stop s TerminalOutcome.blocked h = is_walk_refused s _ refl
is_walk_of_stop s TerminalOutcome.stale h = is_walk_refused s _ refl
is_walk_of_stop s TerminalOutcome.fault h = is_walk_refused s _ refl
is_walk_of_stop s TerminalOutcome.interrupt h = is_walk_refused s _ refl

module _ (digest : Digest) (x : RunInput) where
  abbrev HasWalk : GraphRunResult → Type 0
  HasWalk r = is_walk default_contract r.terminal_outcome r.node_visit_set ≡ true

  ending-nodes :
      (e : Ending digest x)
      → same_phase x.graph_state.graph_phase GraphPhase.terminal_outcome ≡ false
      → (ending_result digest x e).node_visit_set
        ≡ GraphNodeId.packet_intake ∷ nodes_to (stop_of digest x e)
          ++ GraphNodeId.terminal_outcome ∷ []
  unfolding ending_result terminal_result
  ending-nodes e h = closed_nodes x.graph_state.graph_phase (stop_of digest x e) h

  ending-accepted :
      (e : Ending digest x)
      → is_success (ending_result digest x e).terminal_outcome ≡ is_completed digest x e
  unfolding ending_result terminal_result
  ending-accepted e = accepted-ending digest x e

  completed-stop :
      (e : Ending digest x) → is_completed digest x e ≡ true → stop_of digest x e ≡ at_completion
  completed-stop (completed q h) t = refl
  completed-stop (completion_refused q e h) t = refl
  completed-stop (packet_refused h) t = cc
  completed-stop (checkpoint_refused c e h) t = cc
  completed-stop (readiness_refused h) t = cc
  completed-stop (coordination_refused h) t = cc
  completed-stop (select_refused h) t = cc
  completed-stop (trace_refused q e h) t = cc
  completed-stop (operator_refused q e h) t = cc

  ending-HasWalk :
      (e : Ending digest x)
      → same_phase x.graph_state.graph_phase GraphPhase.terminal_outcome ≡ false
      → HasWalk (ending_result digest x e)
  unfolding is_walk_to
  ending-HasWalk e h =
      ap (is_walk default_contract (ending_result digest x e).terminal_outcome) (ending-nodes e h)
      ∙ is_walk_of_stop (stop_of digest x e) _ λ t. completed-stop e (sym (ending-accepted e) ∙ t)

  -- The nodes that a run visits are a walk of the default contract that its outcome closes, unless
  -- the graph state was in the terminal phase before the run.
  pub run-HasWalk :
      same_phase x.graph_state.graph_phase GraphPhase.terminal_outcome ≡ false
      → is_walk default_contract
          (run_whole_field_planner_graph digest x).terminal_outcome
          (run_whole_field_planner_graph digest x).node_visit_set
        ≡ true
  run-HasWalk h =
      let (e, same) = run-ends digest x in
      ap (λ r. is_walk default_contract r.terminal_outcome r.node_visit_set) same
      ∙ ending-HasWalk e h

  completed-nodes :
      (e : Ending digest x)
      → is_completed digest x e ≡ true
      → (ending_result digest x e).node_visit_set
        ≡ GraphNodeId.packet_intake ∷ nodes_to at_completion ++ GraphNodeId.terminal_outcome ∷ []
  unfolding ending_result terminal_result close_visits append_visit
  completed-nodes (completed q h) t = refl
  completed-nodes (completion_refused q e h) t = refl
  completed-nodes (packet_refused h) t = cc
  completed-nodes (checkpoint_refused c e h) t = cc
  completed-nodes (readiness_refused h) t = cc
  completed-nodes (coordination_refused h) t = cc
  completed-nodes (select_refused h) t = cc
  completed-nodes (trace_refused q e h) t = cc
  completed-nodes (operator_refused q e h) t = cc

  -- An accepted run has visited all seven nodes of the path, in order, and then the terminal node.
  pub run_accepted-nodes :
      (run_whole_field_planner_graph digest x).accepted ≡ true
      → (run_whole_field_planner_graph digest x).node_visit_set
        ≡ GraphNodeId.packet_intake ∷ GraphNodeId.readiness_guard ∷ GraphNodeId.coordination_guard
          ∷ GraphNodeId.operator_contract_select ∷ GraphNodeId.operator_invocation
          ∷ GraphNodeId.trace_recording ∷ GraphNodeId.completion_gate ∷ GraphNodeId.terminal_outcome
          ∷ []
  run_accepted-nodes h =
      let (e, same) = run-ends digest x in
      ap (λ r. r.node_visit_set) same
      ∙ completed-nodes e (sym (ap (λ r. r.accepted) same ∙ accepted-ending digest x e) ∙ h)
