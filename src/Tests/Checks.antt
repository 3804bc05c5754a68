-- ===== src/Tests/Checks.antt =====
-- The theorems of issues, checkpoints and interrupt packets at concrete ones.
use mathlib.Core.List.{Perm}
use mathlib.Core.List.Perm as Perms
use lang_sop.Base.{
  ◌≡◌, ◌↔◌, not, ◌&&◌, true, String, List, [], ◌∷◌, ◌++◌, any, is_empty, is_empty_text, ◌==◌,
}
use lang_sop.Runtime.State.{
  GraphIssue, GraphIssueKind, GraphIssueSeverity, issue, GraphValidationResult, accepted_result,
  refused_result, terminal_outcome_for_issues,
}
use lang_sop.Runtime.State.Outcome.{outcome_rank, worst, rank-terminal_outcome}
use lang_sop.Runtime.Checkpoints.{
  CheckpointFreshnessResult, CheckpointResumeCondition, validate_checkpoint, checkpoint_accepted,
}
use lang_sop.Runtime.Checkpoints.Acceptance.{
  is_usable, checkpoint_accepted-validate, validate_checkpoint-agrees,
}
use lang_sop.Runtime.Interrupts.{
  InterruptKind, InterruptContextPacket, build_interrupt_context, validate_interrupt_context,
  interrupt_status_text,
}
use lang_sop.Runtime.Interrupts.Review.{names_live_state, validate_interrupt_context-accepted}
use lang_sop.Operators.Values.{value}
use lang_sop.Runtime.State.{non_authority_warning_text}
use lang_sop.Runtime.State.Parts.{graph_state_from_parts, parts_of, graph_state_from_parts-parts_of}
use lang_sop.Tests.Samples.{one_digest, envelope, ready_state}

abbrev stale_issue : GraphIssue
stale_issue = issue GraphIssueKind.stale_projection GraphIssueSeverity.stale "stale" "f"

abbrev fault_issue : GraphIssue
fault_issue = issue GraphIssueKind.missing_field GraphIssueSeverity.fault "missing" "g"

rank-terminal_outcome_example :
    outcome_rank (terminal_outcome_for_issues (stale_issue ∷ fault_issue ∷ []))
    ≡ worst (stale_issue ∷ fault_issue ∷ [])
rank-terminal_outcome_example = rank-terminal_outcome (stale_issue ∷ fault_issue ∷ [])

abbrev two_results : List GraphValidationResult
two_results = refused_result stale_issue ∷ accepted_result ∷ refused_result fault_issue ∷ []

checkpoint_accepted-validate_example :
    checkpoint_accepted (validate_checkpoint envelope ("b2" ∷ "b1" ∷ []))
    ≡ is_usable envelope ("b2" ∷ "b1" ∷ [])
checkpoint_accepted-validate_example = checkpoint_accepted-validate envelope ("b2" ∷ "b1" ∷ [])

validate_checkpoint-agrees_example :
    ((validate_checkpoint envelope ("b3" ∷ [])).checkpoint_freshness_result
        ≡ CheckpointFreshnessResult.current
      ↔ checkpoint_accepted (validate_checkpoint envelope ("b3" ∷ [])) ≡ true)
    × ((validate_checkpoint envelope ("b3" ∷ [])).resume_condition
          ≡ CheckpointResumeCondition.not_required
        ↔ checkpoint_accepted (validate_checkpoint envelope ("b3" ∷ [])) ≡ true)
validate_checkpoint-agrees_example = validate_checkpoint-agrees envelope ("b3" ∷ [])

swapped_basis : Perm {A = String} ("b1" ∷ "b2" ∷ []) ("b2" ∷ "b1" ∷ [])
swapped_basis = Perms.swap "b2" "b1" []

abbrev packet : InterruptContextPacket
packet =
    build_interrupt_context one_digest InterruptKind.high_risk_operation ready_state "judge"
      ("route" ∷ []) ("a credential" ∷ [])

validate_interrupt_context-accepted_example : (validate_interrupt_context packet).accepted ≡ (
    not (is_empty_text packet.active_work_packet_ref)
    && (not (is_empty_text packet.required_judgment)
        && (not (is_empty packet.allowed_resume_route_set)
            && (not (any names_live_state (packet.evidence_ref_set ++ packet.input_record_ref_set))
                && (packet.packet_status == interrupt_status_text)))))
validate_interrupt_context-accepted_example = validate_interrupt_context-accepted packet

graph_state_from_parts-parts_of_example :
    graph_state_from_parts (parts_of ready_state)
    ≡ value (record ready_state {
      authority_limit = "execution_state_only";
      non_authority_warning = non_authority_warning_text;
    })
graph_state_from_parts-parts_of_example = graph_state_from_parts-parts_of ready_state
