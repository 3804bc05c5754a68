-- ===== src/Manager/Obligations.antt =====
-- The proof obligations and the gate of a cycle, of src/langsop/manager/records.py.
use lang_sop.Manager.Records.{
  CompletionGate, ManagerCycleInput, ProofObligation, completion_gate, proof_obligation,
}
use lang_sop.Base.{
  List, [], false, if◌then◌else◌, is_empty, is_empty_text, map, not, ◌<>◌, ◌==◌, ◌∷◌,
}

unfoldable pub proof_obligations_for_cycle : ManagerCycleInput → List ProofObligation
proof_obligations_for_cycle cycle =
    if not (is_empty cycle.proof_obligation_ref_set)
    then map
        (λ ref.
          proof_obligation ref
            (if not (is_empty cycle.source_ref_set)
              then cycle.source_ref_set
              else cycle.work_ref ∷ [])
            false)
        cycle.proof_obligation_ref_set
    else (proof_obligation (cycle.work_ref <> ":source_authority")
        (if not (is_empty cycle.source_ref_set) then cycle.source_ref_set else cycle.work_ref ∷ [])
        (cycle.source_authority_state == "accepted_and_fresh"))
      ∷ (proof_obligation (cycle.work_ref <> ":completion_review")
          (if not (is_empty_text cycle.completion_review_ref)
            then cycle.completion_review_ref ∷ []
            else [])
          (not (is_empty_text cycle.completion_review_ref)))
      ∷ []

unfoldable pub completion_gate_for_cycle : ManagerCycleInput → CompletionGate
completion_gate_for_cycle cycle =
    completion_gate (cycle.work_ref <> ":completion_gate")
      (if not (is_empty_text cycle.completion_review_ref)
        then cycle.completion_review_ref
        else "completion_review_required")
      (not (is_empty_text cycle.completion_review_ref))
