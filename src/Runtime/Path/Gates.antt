-- ===== src/Runtime/Path/Gates.antt =====
-- What the graph state and the request of an accepted run are known to be.
use lang_sop.Base.{
  ◌≡◌, refl, Bool, true, false, not, ◌&&◌, some, List, [], ◌∷◌, ◌++◌, ◌==◌, arith, any, is_empty,
  is_empty_text, is_missing, only_if,
}
use lang_sop.Digest.{Digest}
use lang_sop.Operators.Contracts.{OutcomeKind}
use lang_sop.Operators.Results.{OperatorRunResult, RequestInput}
use lang_sop.Runtime.State.{
  GraphIssue, GraphNodeId, GraphState, GraphValidationResult, merge_validation_results,
  gather_issues,
}
use lang_sop.Runtime.Contracts.{validate_graph_state}
use lang_sop.Runtime.Runner.{visit_node, apply_completion_policy, trace_validation}
use lang_sop.Runtime.Path.{
  RunInput, add_if, is_contested, completion_validation, coordination_validation,
  readiness_validation, packet_validation, run_whole_field_planner_graph,
}
use lang_sop.Runtime.Path.Ends.{Holds, Completed, operator_run}
use lang_sop.Runtime.Path.Accepted.{run_accepted_iff}

-- The graph state may be read: both anchors, no authority claimed, nothing stale and no fault.
pub record IsReadable (s : GraphState) : Type 0 where
  pub packet_ref : is_empty_text s.active_work_packet_ref ≡ false
  pub boundary_refs : is_empty s.accepted_boundary_pack_ref_set ≡ false
  pub limit : (s.authority_limit == "execution_state_only") ≡ true
  pub no_stale : is_empty s.stale_projection_ref_set ≡ true
  pub no_fault : is_empty s.fault_record_ref_set ≡ true

five_absent :
    (a b c d e : Bool) (i j k l m : GraphIssue)
    → is_empty (only_if a i ++ (only_if b j ++ (only_if c k ++ (only_if d l ++ only_if e m))))
      ≡ true
    → (a ≡ false) × (b ≡ false) × (c ≡ false) × (d ≡ false) × (e ≡ false)
five_absent a b c d e i j k l m h = ground arith

-- A graph state is accepted only if it is readable.
pub validate_graph_state-IsReadable :
    (s : GraphState) → (validate_graph_state s).accepted ≡ true → IsReadable s
unfolding validate_graph_state
validate_graph_state-IsReadable s h =
    let (packet, boundary, limit, no_stale, no_fault) =
      five_absent (is_empty_text s.active_work_packet_ref)
        (is_empty s.accepted_boundary_pack_ref_set)
        (not (s.authority_limit == "execution_state_only"))
        (not (is_empty s.stale_projection_ref_set)) (not (is_empty s.fault_record_ref_set)) _ _ _ _
        _ h in
    record {
      packet_ref = packet;
      boundary_refs = boundary;
      limit = ground arith;
      no_stale = ground arith;
      no_fault = ground arith;
    }

is_empty-second :
    (is js : List GraphIssue) → is_empty (is ++ (js ++ [])) ≡ true → is_empty js ≡ true
is_empty-second [] [] h = refl
is_empty-second [] (j ∷ js) h = cc
is_empty-second (i ∷ is) js h = cc

is_empty-concat : (is : List GraphIssue) (i : GraphIssue) → is_empty (is ++ i ∷ []) ≡ false
is_empty-concat [] i = refl
is_empty-concat (k ∷ is) i = refl

two_absent :
    (is : List GraphIssue) (a b : Bool) (i j : GraphIssue)
    → is_empty (is ++ (only_if a i ++ only_if b j)) ≡ true
    → (a ≡ false) × (b ≡ false)
two_absent [] a b i j h = ground arith
two_absent (k ∷ is) a b i j h = cc

add_if_accepted :
    (b : Bool) (i : GraphIssue) (v : GraphValidationResult) → Holds (add_if b i v) → b ≡ false
unfolding merge_validation_results gather_issues
add_if_accepted true i v h = cc (h, is_empty-concat v.issues i)
add_if_accepted false i v h = refl

module _ (digest : Digest) (x : RunInput) where
  -- What holds of an accepted run: the policy decides which proofs are asked for.
  pub record IsGated (q : RequestInput) : Type 0 where
    pub readable : IsReadable x.graph_state
    pub readiness_proof :
        (x.policy.require_readiness_proof && is_empty x.graph_state.proof_result_ref_set) ≡ false
    pub uncontested : any is_contested x.graph_state.coordination_claim_ref_set ≡ false
    pub requested : x.operator_request ≡ some q
    pub succeeded : (operator_run digest x q).outcome_kind ≡ OutcomeKind.success
    pub traced : is_empty_text (operator_run digest x q).operator_trace.trace_id ≡ false
    pub review :
        (x.policy.require_completion_review_for_success
          && is_missing x.graph_state.completion_review_ref)
        ≡ false
    pub no_hidden_write :
        (x.policy.require_no_hidden_write_proof_for_success
          && is_missing x.graph_state.no_hidden_write_proof_ref)
        ≡ false

  packet-IsReadable : Holds (packet_validation digest x) → IsReadable x.graph_state
  unfolding packet_validation merge_validation_results gather_issues validate_graph_state
  packet-IsReadable h = validate_graph_state-IsReadable x.graph_state (
      is_empty-second (visit_node x.graph_state x.graph_contract GraphNodeId.packet_intake).issues
        (validate_graph_state x.graph_state).issues h)

  readiness-proof :
      Holds (readiness_validation digest x)
      → (x.policy.require_readiness_proof && is_empty x.graph_state.proof_result_ref_set) ≡ false
  unfolding readiness_validation
  readiness-proof h = add_if_accepted _ _ _ h

  coordination-uncontested :
      Holds (coordination_validation digest x)
      → any is_contested x.graph_state.coordination_claim_ref_set ≡ false
  unfolding coordination_validation
  coordination-uncontested h = add_if_accepted _ _ _ h

  trace-given :
      (r : OperatorRunResult)
      → Holds (trace_validation r)
      → is_empty_text r.operator_trace.trace_id ≡ false
  unfolding trace_validation
  trace-given r h = ground arith

  completion-proofs :
      Holds (completion_validation digest x)
      → ((x.policy.require_completion_review_for_success
            && is_missing x.graph_state.completion_review_ref)
          ≡ false)
        × ((x.policy.require_no_hidden_write_proof_for_success
              && is_missing x.graph_state.no_hidden_write_proof_ref)
            ≡ false)
  unfolding completion_validation apply_completion_policy
  completion-proofs h = two_absent _ _ _ _ _ h

  gated : (q : RequestInput) → Completed digest x q → IsGated q
  gated q c =
      let (review, no_hidden_write) = completion-proofs c.completion in
      record {
        readable = packet-IsReadable c.packet;
        readiness_proof = readiness-proof c.readiness;
        uncontested = coordination-uncontested c.coordination;
        requested = c.requested;
        succeeded = c.succeeded;
        traced = trace-given (operator_run digest x q) c.traced;
        review = review;
        no_hidden_write = no_hidden_write;
      }

  -- An accepted run has a readable graph state, no contested claim, the proofs that the policy asks
  -- for, and a request whose operator run succeeded with a trace.
  pub run_accepted-IsGated :
      (run_whole_field_planner_graph digest x).accepted ≡ true → (q : RequestInput) × IsGated q
  run_accepted-IsGated h = let (q, c) = (run_accepted_iff digest x).0 h in (q, gated q c)
