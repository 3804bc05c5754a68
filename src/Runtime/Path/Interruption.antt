-- ===== src/Runtime/Path/Interruption.antt =====
-- The outcome of a run, its issues and its interrupt packet.
use lang_sop.Base.{◌≡◌, refl, ◌↔◌, Bool, true, false, some, List, [], ◌∷◌, arith, is_some}
use lang_sop.Digest.{Digest}
use lang_sop.Runtime.State.{TerminalOutcome, GraphIssue, GraphState, terminal_outcome_for_issues}
use lang_sop.Runtime.State.Outcome.{
  outcome_rank, worst, rank-terminal_outcome, terminal_success_iff,
}
use lang_sop.Runtime.Contracts.{classify_terminal_outcome}
use lang_sop.Runtime.Runner.{
  GraphRunResult, head?, context_if_interrupt, terminal_result, interrupt_context_for_issue,
}
use lang_sop.Runtime.Path.{RunInput, run_whole_field_planner_graph}
use lang_sop.Runtime.Path.Ends.{Ending, ending_result, validation_of}
use lang_sop.Runtime.Path.Stages.{run-ends}

abbrev is_interruption : TerminalOutcome → Bool
is_interruption TerminalOutcome.interrupt = true
is_interruption _ = false

interruption_iff :
    (o : TerminalOutcome) (b : Bool)
    → b ≡ is_interruption o
    → (b ≡ true) ↔ (o ≡ TerminalOutcome.interrupt)
interruption_iff o b h = ground arith

module _ (digest : Digest) (s : GraphState) where
  context_of_outcome :
      (o : TerminalOutcome) (i : GraphIssue)
      → is_some (context_if_interrupt digest o s (some i)) ≡ is_interruption o
  unfolding interrupt_context_for_issue
  context_of_outcome TerminalOutcome.success i = refl
  context_of_outcome TerminalOutcome.blocked i = refl
  context_of_outcome TerminalOutcome.stale i = refl
  context_of_outcome TerminalOutcome.fault i = refl
  context_of_outcome TerminalOutcome.interrupt i = refl

  context_of_issues :
      (is : List GraphIssue)
      → is_some (context_if_interrupt digest (terminal_outcome_for_issues is) s (head? is))
        ≡ is_interruption (terminal_outcome_for_issues is)
  context_of_issues [] = let e = (terminal_success_iff []).1 refl in rw e refl
  context_of_issues (i ∷ is) = context_of_outcome (terminal_outcome_for_issues (i ∷ is)) i

module _ (digest : Digest) (x : RunInput) where
  abbrev pub IsClassified : GraphRunResult → Type 0
  IsClassified r =
      (outcome_rank r.terminal_outcome ≡ worst r.validation.issues)
      × (r.terminal_record.terminal_outcome ≡ r.terminal_outcome)
      × ((is_some r.interrupt_context ≡ true) ↔ (r.terminal_outcome ≡ TerminalOutcome.interrupt))

  ending-IsClassified : (e : Ending digest x) → IsClassified (ending_result digest x e)
  unfolding ending_result terminal_result classify_terminal_outcome
  ending-IsClassified e = (
    rank-terminal_outcome (validation_of digest x e).issues,
    refl,
    interruption_iff _ _ (context_of_issues digest x.graph_state (validation_of digest x e).issues),
  )

  -- The outcome of a run ranks as the worst of its issues, its record has the same outcome, and it
  -- carries an interrupt packet exactly when the outcome is an interrupt.
  pub run-IsClassified : IsClassified (run_whole_field_planner_graph digest x)
  run-IsClassified = let (e, same) = run-ends digest x in rw same (ending-IsClassified e)
