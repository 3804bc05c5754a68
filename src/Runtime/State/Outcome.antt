-- ===== src/Runtime/State/Outcome.antt =====
-- The terminal outcome of a list of issues is the worst of their severities.
use Prim.Native.Nat.{ℕ, ◌≤◌, max}
use lang_sop.Base.{
  ◌≡◌, refl, ◌∙◌, ap, ◌↔◌, Bool, true, ◌||◌, List, [], ◌∷◌, ◌++◌, arith, any, if◌then◌else◌,
  is_empty,
}
use lang_sop.Runtime.State.{
  TerminalOutcome, GraphIssueSeverity, GraphIssue, GraphValidationResult, is_fault, is_interrupt,
  is_stale, is_blocked, terminal_outcome_for_issues, gather_issues, merge_validation_results,
}

-- The priority of the graph contract: fault, interrupt, stale, blocked.
abbrev pub severity_rank : GraphIssueSeverity → ℕ
severity_rank GraphIssueSeverity.blocked = 1
severity_rank GraphIssueSeverity.stale = 2
severity_rank GraphIssueSeverity.interrupt = 3
severity_rank GraphIssueSeverity.fault = 4

abbrev pub outcome_rank : TerminalOutcome → ℕ
outcome_rank TerminalOutcome.success = 0
outcome_rank TerminalOutcome.blocked = 1
outcome_rank TerminalOutcome.stale = 2
outcome_rank TerminalOutcome.interrupt = 3
outcome_rank TerminalOutcome.fault = 4

abbrev pub worst : List GraphIssue → ℕ
worst [] = 0
worst (i ∷ is) = max (severity_rank i.severity) (worst is)

abbrev of_tests : Bool → Bool → Bool → Bool → TerminalOutcome
of_tests f i s b =
    if f
    then TerminalOutcome.fault
    else if i
    then TerminalOutcome.interrupt
    else if s
    then TerminalOutcome.stale
    else if b
    then TerminalOutcome.blocked
    else TerminalOutcome.success

of_tests-cons :
    (k : GraphIssueSeverity) (f i s b : Bool) (issue : GraphIssue)
    → issue.severity ≡ k
    → outcome_rank (
        of_tests
          (is_fault issue || f)
          (is_interrupt issue || i)
          (is_stale issue || s)
          (is_blocked issue || b))
      ≡ max (severity_rank k) (outcome_rank (of_tests f i s b))
unfolding is_fault is_interrupt is_stale is_blocked
of_tests-cons k f i s b issue e = ground arith

-- The outcome of a list of issues ranks as its worst issue, whatever their order.
pub rank-terminal_outcome :
    (is : List GraphIssue) → outcome_rank (terminal_outcome_for_issues is) ≡ worst is
unfolding terminal_outcome_for_issues any
rank-terminal_outcome [] = refl
rank-terminal_outcome (i ∷ is) =
    of_tests-cons i.severity _ _ _ _ i refl
    ∙ ap (max (severity_rank i.severity)) (rank-terminal_outcome is)

severity_pos : (k : GraphIssueSeverity) → 1 ≤ severity_rank k
severity_pos k = ground arith

-- Only an empty list of issues ends in success.
pub terminal_success_iff :
    (is : List GraphIssue)
    → (terminal_outcome_for_issues is ≡ TerminalOutcome.success) ↔ (is_empty is ≡ true)
unfolding terminal_outcome_for_issues any
terminal_success_iff [] = (λ h. refl, λ h. refl)
terminal_success_iff (i ∷ is) = (
  λ h.
      absurd
        (omega (arith, ap outcome_rank h, rank-terminal_outcome (i ∷ is), severity_pos i.severity)),
  λ h. cc,
)

worst-append : (is js : List GraphIssue) → worst (is ++ js) ≡ max (worst is) (worst js)
worst-append [] js = omega arith
worst-append (i ∷ is) js = omega (arith, worst-append is js)

abbrev pub worst_result : List GraphValidationResult → ℕ
worst_result [] = 0
worst_result (r ∷ rs) = max (outcome_rank (terminal_outcome_for_issues r.issues)) (worst_result rs)

worst-gather : (rs : List GraphValidationResult) → worst (gather_issues rs) ≡ worst_result rs
unfolding gather_issues
worst-gather [] = refl
worst-gather (r ∷ rs) = omega (
  arith,
  worst-append r.issues (gather_issues rs),
  worst-gather rs,
  rank-terminal_outcome r.issues,
)

-- Merged validation results end in the worst outcome that one of them has.
pub rank-merge :
    (rs : List GraphValidationResult)
    → outcome_rank (terminal_outcome_for_issues (merge_validation_results rs).issues)
      ≡ worst_result rs
unfolding merge_validation_results
rank-merge rs = rank-terminal_outcome (gather_issues rs) ∙ worst-gather rs
