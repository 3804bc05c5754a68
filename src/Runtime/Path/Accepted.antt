-- ===== src/Runtime/Path/Accepted.antt =====
-- Which runs of `run_whole_field_planner_graph` are accepted, and what they have visited.
use lang_sop.Base.{◌≡◌, refl, ◌∙◌, sym, ap, ◌↔◌, Bool, true, false, some, arith, is_empty}
use lang_sop.Digest.{Digest}
use lang_sop.Operators.Contracts.{OutcomeKind}
use lang_sop.Operators.Results.{RequestInput}
use lang_sop.Runtime.State.{
  GraphNodeId, TerminalOutcome, GraphValidationResult, terminal_outcome_for_issues,
  merge_validation_results,
}
use lang_sop.Runtime.State.Outcome.{terminal_success_iff}
use lang_sop.Runtime.Contracts.{classify_terminal_outcome, validate_node_preconditions}
use lang_sop.Runtime.Checkpoints.{validate_checkpoint}
use lang_sop.Runtime.Runner.{
  is_success, terminal_result, trace_validation, operator_terminal_validation,
  apply_completion_policy, visit_node,
}
use lang_sop.Runtime.Path.{
  RunInput, completion_validation, select_validation, coordination_validation, readiness_validation,
  packet_validation, run_whole_field_planner_graph,
}
use lang_sop.Runtime.Path.Ends.{
  IsRefused, Completed, Ending, ending_result, validation_of, operator_run, packet_refused,
  checkpoint_refused, readiness_refused, coordination_refused, select_refused, trace_refused,
  operator_refused, completion_refused, completed,
}
use lang_sop.Runtime.Path.Stages.{run-ends}

-- A result whose flag says whether it has issues.
abbrev IsFair : GraphValidationResult → Type 0
IsFair v = v.accepted ≡ is_empty v.issues

is_success_iff : (o : TerminalOutcome) → (is_success o ≡ true) ↔ (o ≡ TerminalOutcome.success)
is_success_iff o = ground arith

classify-is_empty :
    (v : GraphValidationResult) → is_success (classify_terminal_outcome v) ≡ is_empty v.issues
unfolding classify_terminal_outcome
classify-is_empty v =
    let (there, back) = terminal_success_iff v.issues in
    let (from, to) = is_success_iff (terminal_outcome_for_issues v.issues) in ground arith

refused-is_empty : (v : GraphValidationResult) → IsFair v → IsRefused v → is_empty v.issues ≡ false
refused-is_empty v f h = ground arith

trace_validation-IsFair : (r : _) → IsFair (trace_validation r)
unfolding trace_validation
trace_validation-IsFair r = ground arith

operator_terminal-is_empty :
    (k : OutcomeKind) → is_empty (operator_terminal_validation k).issues ≡ false
unfolding operator_terminal_validation
operator_terminal-is_empty k = ground arith

module _ (digest : Digest) (x : RunInput) where
  packet-IsFair : IsFair (packet_validation digest x)
  unfolding packet_validation merge_validation_results
  packet-IsFair = refl

  visit-IsFair : (n : GraphNodeId) → IsFair (visit_node x.graph_state x.graph_contract n)
  unfolding visit_node validate_node_preconditions
  visit-IsFair n = ground arith

  readiness-IsFair : IsFair (readiness_validation digest x)
  unfolding readiness_validation merge_validation_results
  readiness-IsFair = ground (arith, visit-IsFair GraphNodeId.readiness_guard)

  coordination-IsFair : IsFair (coordination_validation digest x)
  unfolding coordination_validation merge_validation_results
  coordination-IsFair = ground (arith, visit-IsFair GraphNodeId.coordination_guard)

  select-IsFair : IsFair (select_validation digest x)
  unfolding select_validation merge_validation_results
  select-IsFair = ground (arith, visit-IsFair GraphNodeId.operator_contract_select)

  completion-IsFair : IsFair (completion_validation digest x)
  unfolding completion_validation apply_completion_policy
  completion-IsFair = refl

  abbrev pub is_completed : Ending digest x → Bool
  is_completed (completed q h) = true
  is_completed _ = false

  ending-is_empty :
      (e : Ending digest x) → is_empty (validation_of digest x e).issues ≡ is_completed e
  unfolding validate_checkpoint
  ending-is_empty (packet_refused h) = refused-is_empty _ packet-IsFair h
  ending-is_empty (checkpoint_refused c e h) = refused-is_empty _ refl h
  ending-is_empty (readiness_refused h) = refused-is_empty _ readiness-IsFair h
  ending-is_empty (coordination_refused h) = refused-is_empty _ coordination-IsFair h
  ending-is_empty (select_refused h) = refused-is_empty _ select-IsFair h
  ending-is_empty (trace_refused q e h) =
      refused-is_empty _ (trace_validation-IsFair (operator_run digest x q)) h
  ending-is_empty (operator_refused q e h) = operator_terminal-is_empty _
  ending-is_empty (completion_refused q e h) = refused-is_empty _ completion-IsFair h
  ending-is_empty (completed q h) = refl

  pub accepted-ending : (e : Ending digest x) → (ending_result digest x e).accepted ≡ is_completed e
  unfolding ending_result terminal_result
  accepted-ending e = classify-is_empty (validation_of digest x e) ∙ ending-is_empty e

  Completed-of_accepted :
      (e : Ending digest x) → is_completed e ≡ true → (q : RequestInput) × Completed digest x q
  Completed-of_accepted (completed q h) t = (q, h)
  Completed-of_accepted (packet_refused h) t = cc
  Completed-of_accepted (checkpoint_refused c e h) t = cc
  Completed-of_accepted (readiness_refused h) t = cc
  Completed-of_accepted (coordination_refused h) t = cc
  Completed-of_accepted (select_refused h) t = cc
  Completed-of_accepted (trace_refused q e h) t = cc
  Completed-of_accepted (operator_refused q e h) t = cc
  Completed-of_accepted (completion_refused q e h) t = cc

  same_request :
      (q r : RequestInput) → x.operator_request ≡ some q → x.operator_request ≡ some r → q ≡ r
  same_request q r h k = ground arith

  -- A run that has passed every test cannot end at one of them.
  Completed-is_completed :
      (q : RequestInput) → Completed digest x q → (e : Ending digest x) → is_completed e ≡ true
  Completed-is_completed q c (completed r h) = refl
  Completed-is_completed q c (packet_refused h) = ground (arith, c.packet)
  Completed-is_completed q c (checkpoint_refused k e h) = ground (arith, c.checkpoint)
  Completed-is_completed q c (readiness_refused h) = ground (arith, c.readiness)
  Completed-is_completed q c (coordination_refused h) = ground (arith, c.coordination)
  Completed-is_completed q c (select_refused h) = ground (arith, c.select)
  Completed-is_completed q c (trace_refused r e h) =
      ground (arith, rw (same_request q r c.requested e) at c.traced)
  Completed-is_completed q c (operator_refused r e h) =
      ground (arith, rw (same_request q r c.requested e) at c.succeeded)
  Completed-is_completed q c (completion_refused r e h) = ground (arith, c.completion)

  -- A run is accepted exactly when the packet, the checkpoint if there is one, the readiness, the
  -- coordination, the selection, the trace and the completion are accepted and the operator was
  -- asked and succeeded.
  pub run_accepted_iff :
      ((run_whole_field_planner_graph digest x).accepted ≡ true)
      ↔ ((q : RequestInput) × Completed digest x q)
  run_accepted_iff =
      let (e, same) = run-ends digest x in
      let flag = ap (λ r. r.accepted) same ∙ accepted-ending e in
      (λ h. Completed-of_accepted e (sym flag ∙ h), λ (q, c). flag ∙ Completed-is_completed q c e)
