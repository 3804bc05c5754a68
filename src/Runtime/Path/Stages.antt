-- ===== src/Runtime/Path/Stages.antt =====
-- Every run ends in one terminal result, after one of six prefixes of the node sequence.
use lang_sop.Base.{
  ◌≡◌, refl, ◌∙◌, true, false, none, some, List, [], ◌∷◌, ◌++◌, arith, Bool-cases, Option-cases,
  is_empty, inl, inr,
}
use lang_sop.Digest.{Digest}
use lang_sop.Operators.Contracts.{OutcomeKind}
use lang_sop.Operators.Results.{RequestInput}
use lang_sop.Runtime.State.{
  GraphPhase, GraphNodeId, GraphIssue, merge_validation_results, gather_issues,
}
use lang_sop.Runtime.Checkpoints.{CheckpointEnvelope, checkpoint_accepted}
use lang_sop.Runtime.Runner.{
  Visits, append_visit, trace_validation, graph_request_ref, terminal_result,
}
use lang_sop.Runtime.Path.{
  RunInput, finish, is_success_kind, completion_validation, completion_stage, trace_stage,
  invoke_stage, select_validation, select_stage, coordination_validation, coordination_stage,
  readiness_validation, readiness_stage, checkpoint_stage, packet_validation,
  run_whole_field_planner_graph,
}
use lang_sop.Runtime.Path.Ends.{
  Holds, IsRefused, operator_run, Completed, ending_result, EndsIn, at, checkpoint_passes, check,
  at_packet, at_readiness, at_coordination, at_select, at_trace, packet_refused, checkpoint_refused,
  readiness_refused, coordination_refused, select_refused, trace_refused, operator_refused,
  completion_refused, completed,
}

module _ (digest : Digest) (x : RunInput) where
  completion_stage-EndsIn :
      (q : RequestInput)
      → x.operator_request ≡ some q
      → (Holds (completion_validation digest x) → Completed digest x q)
      → EndsIn digest x (completion_stage digest x (at digest x at_trace) (operator_run digest x q))
  unfolding completion_stage append_visit ending_result
  completion_stage-EndsIn q given passed =
      elim (Bool-cases (completion_validation digest x).accepted) [
        | inl e ↦ (completed q (passed e), rw e)
        | inr e ↦ (completion_refused q given e, rw e)
      ]

  is_success_kind-true : (k : OutcomeKind) → is_success_kind k ≡ true → k ≡ OutcomeKind.success
  is_success_kind-true k h = ground arith

  invoke_stage-EndsIn :
      (q : RequestInput)
      → x.operator_request ≡ some q
      → (Holds (trace_validation (operator_run digest x q))
          → (operator_run digest x q).outcome_kind ≡ OutcomeKind.success
          → Holds (completion_validation digest x)
          → Completed digest x q)
      → EndsIn digest x (invoke_stage digest x (at digest x at_select) q)
  unfolding invoke_stage trace_stage append_visit ending_result
  invoke_stage-EndsIn q given passed =
      elim (Bool-cases (trace_validation (operator_run digest x q)).accepted) [
        | inr e ↦ (trace_refused q given e, rw e)
        | inl t ↦ elim (Bool-cases (is_success_kind (operator_run digest x q).outcome_kind)) [
          | inr e ↦ (operator_refused q given e, rw (t, e))
          | inl k ↦
              rw (t, k) (completion_stage-EndsIn q given (passed t (is_success_kind-true _ k)))
        ]
      ]

  -- What a run has passed when it comes to the operator.
  record Selected : Type 0 where
    packet : Holds (packet_validation digest x)
    checkpoint : checkpoint_passes digest x x.checkpoint ≡ true
    readiness : Holds (readiness_validation digest x)
    coordination : Holds (coordination_validation digest x)

  is_empty-concat : (is js : List GraphIssue) (i : GraphIssue) → is_empty (is ++ i ∷ js) ≡ false
  is_empty-concat [] js i = refl
  is_empty-concat (k ∷ is) js i = refl

  select_validation_of_none : x.operator_request ≡ none → IsRefused (select_validation digest x)
  unfolding select_validation merge_validation_results gather_issues
  select_validation_of_none e = rw e (is_empty-concat _ _ _)

  select_stage_of_none :
      (v : Visits)
      → x.operator_request ≡ none
      → select_stage digest x v
        ≡ finish digest x
            (select_validation digest x)
            (append_visit v GraphPhase.operator_contract_select
              GraphNodeId.operator_contract_select)
            none
  unfolding select_stage
  select_stage_of_none v e = rw e

  select_stage_of_refused :
      (v : Visits) (q : RequestInput)
      → x.operator_request ≡ some q
      → IsRefused (select_validation digest x)
      → select_stage digest x v
        ≡ finish digest x
            (select_validation digest x)
            (append_visit v GraphPhase.operator_contract_select
              GraphNodeId.operator_contract_select)
            none
  unfolding select_stage
  select_stage_of_refused v q e f = ground arith

  select_stage_of_accepted :
      (v : Visits) (q : RequestInput)
      → x.operator_request ≡ some q
      → Holds (select_validation digest x)
      → select_stage digest x v
        ≡ invoke_stage digest x
            (append_visit v GraphPhase.operator_contract_select
              GraphNodeId.operator_contract_select)
            q
  unfolding select_stage
  select_stage_of_accepted v q e f = ground arith

  select_stage-EndsIn :
      Selected → EndsIn digest x (select_stage digest x (at digest x at_coordination))
  unfolding append_visit ending_result
  select_stage-EndsIn s = elim (Option-cases x.operator_request) [
    | inl e ↦ (select_refused (select_validation_of_none e), select_stage_of_none _ e)
    | inr (q, e) ↦ elim (Bool-cases (select_validation digest x).accepted) [
      | inr f ↦ (select_refused f, select_stage_of_refused _ q e f)
      | inl t ↦
          let (ending, same) = invoke_stage-EndsIn q e λ traced succeeded completion. record {
            packet = s.packet;
            checkpoint = s.checkpoint;
            readiness = s.readiness;
            coordination = s.coordination;
            requested = e;
            select = t;
            traced = traced;
            succeeded = succeeded;
            completion = completion;
          } in
          (ending, select_stage_of_accepted _ q e t ∙ same)
    ]
  ]

  coordination_stage-EndsIn :
      (Holds (coordination_validation digest x) → Selected)
      → EndsIn digest x (coordination_stage digest x (at digest x at_readiness))
  unfolding coordination_stage append_visit ending_result
  coordination_stage-EndsIn passed = elim (Bool-cases (coordination_validation digest x).accepted) [
    | inr e ↦ (coordination_refused e, rw e)
    | inl e ↦ rw e (select_stage-EndsIn (passed e))
  ]

  readiness_stage-EndsIn :
      (Holds (readiness_validation digest x) → Holds (coordination_validation digest x) → Selected)
      → EndsIn digest x (readiness_stage digest x (at digest x at_packet))
  unfolding readiness_stage append_visit ending_result
  readiness_stage-EndsIn passed = elim (Bool-cases (readiness_validation digest x).accepted) [
    | inr e ↦ (readiness_refused e, rw e)
    | inl e ↦ rw e (coordination_stage-EndsIn (passed e))
  ]

  checkpoint_stage_of_none :
      (v : Visits) → x.checkpoint ≡ none → checkpoint_stage digest x v ≡ readiness_stage digest x v
  unfolding checkpoint_stage
  checkpoint_stage_of_none v e = ground arith

  checkpoint_stage_of_refused :
      (v : Visits) (c : CheckpointEnvelope)
      → x.checkpoint ≡ some c
      → checkpoint_accepted (check digest x c) ≡ false
      → checkpoint_stage digest x v
        ≡ terminal_result digest
            (graph_request_ref x.operator_request)
            x.graph_state
            (check digest x c).validation
            v
            none
            (some (check digest x c))
  unfolding checkpoint_stage
  checkpoint_stage_of_refused v c e f = ground arith

  checkpoint_stage_of_accepted :
      (v : Visits) (c : CheckpointEnvelope)
      → x.checkpoint ≡ some c
      → checkpoint_accepted (check digest x c) ≡ true
      → checkpoint_stage digest x v ≡ readiness_stage digest x v
  unfolding checkpoint_stage
  checkpoint_stage_of_accepted v c e f = ground arith

  checkpoint_stage-EndsIn :
      Holds (packet_validation digest x)
      → EndsIn digest x (checkpoint_stage digest x (at digest x at_packet))
  unfolding ending_result
  checkpoint_stage-EndsIn packet = elim (Option-cases x.checkpoint) [
    | inl e ↦
        let (ending, same) = readiness_stage-EndsIn λ r k. record {
          packet = packet;
          checkpoint = ground arith;
          readiness = r;
          coordination = k;
        } in
        (ending, checkpoint_stage_of_none _ e ∙ same)
    | inr (c, e) ↦ elim (Bool-cases (checkpoint_accepted (check digest x c))) [
      | inr f ↦ (checkpoint_refused c e f, checkpoint_stage_of_refused _ c e f)
      | inl t ↦
          let (ending, same) = readiness_stage-EndsIn λ r k. record {
            packet = packet;
            checkpoint = ground arith;
            readiness = r;
            coordination = k;
          } in
          (ending, checkpoint_stage_of_accepted _ c e t ∙ same)
    ]
  ]

  -- Whatever its input, a run returns the terminal result of one of the nine ways to end.
  pub run-ends : EndsIn digest x (run_whole_field_planner_graph digest x)
  unfolding run_whole_field_planner_graph append_visit ending_result
  run-ends = elim (Bool-cases (packet_validation digest x).accepted) [
    | inr e ↦ (packet_refused e, rw e)
    | inl e ↦ rw e (checkpoint_stage-EndsIn e)
  ]
