-- ===== src/Coordination/Reviews/Vocabulary.antt =====
-- The enumerations of src/langsop/coordination/reviews.py.
use lang_sop.Base.{Bool, List, String, [], false, true, ◌∷◌}

pub data CoordinationReviewDecision : Type 0 where
  proceed block interrupt refresh release supersede invalidate : CoordinationReviewDecision
  rebake human_override refuse : CoordinationReviewDecision

unfoldable pub coordination_review_decision_value : CoordinationReviewDecision → String
coordination_review_decision_value proceed = "proceed"
coordination_review_decision_value block = "block"
coordination_review_decision_value interrupt = "interrupt"
coordination_review_decision_value refresh = "refresh"
coordination_review_decision_value release = "release"
coordination_review_decision_value supersede = "supersede"
coordination_review_decision_value invalidate = "invalidate"
coordination_review_decision_value rebake = "rebake"
coordination_review_decision_value human_override = "human_override"
coordination_review_decision_value refuse = "refuse"

pub data CoordinationReviewIssueKind : Type 0 where
  contested_claim stale_claim ambiguous_identity : CoordinationReviewIssueKind
  hidden_scope_expansion pending_human_override : CoordinationReviewIssueKind
  out_of_scope_override expired_override forbidden_effect_requested : CoordinationReviewIssueKind

unfoldable pub coordination_review_issue_kind_value : CoordinationReviewIssueKind → String
coordination_review_issue_kind_value contested_claim = "contested_claim"
coordination_review_issue_kind_value stale_claim = "stale_claim"
coordination_review_issue_kind_value ambiguous_identity = "ambiguous_identity"
coordination_review_issue_kind_value hidden_scope_expansion = "hidden_scope_expansion"
coordination_review_issue_kind_value pending_human_override = "pending_human_override"
coordination_review_issue_kind_value out_of_scope_override = "out_of_scope_override"
coordination_review_issue_kind_value expired_override = "expired_override"
coordination_review_issue_kind_value forbidden_effect_requested = "forbidden_effect_requested"

pub data CoordinationReviewIssueSeverity : Type 0 where
  blocked stale fault interrupt refused : CoordinationReviewIssueSeverity

unfoldable pub coordination_review_issue_severity_value : CoordinationReviewIssueSeverity → String
coordination_review_issue_severity_value blocked = "blocked"
coordination_review_issue_severity_value stale = "stale"
coordination_review_issue_severity_value fault = "fault"
coordination_review_issue_severity_value interrupt = "interrupt"
coordination_review_issue_severity_value refused = "refused"

abbrev pub forbidden_override_effect_set : List String
forbidden_override_effect_set =
    "assignment" ∷ "assign_agent" ∷ "dispatch" ∷ "agent_dispatch" ∷ "completion_acceptance"
    ∷ "mailbox_file_write" ∷ "operations_control" ∷ "live_machine_control" ∷ []

abbrev pub coordination_review_decision_is_proceed : CoordinationReviewDecision → Bool
coordination_review_decision_is_proceed CoordinationReviewDecision.proceed = true
coordination_review_decision_is_proceed other = false

abbrev pub coordination_review_issue_severity_is_blocked : CoordinationReviewIssueSeverity → Bool
coordination_review_issue_severity_is_blocked CoordinationReviewIssueSeverity.blocked = true
coordination_review_issue_severity_is_blocked other = false

abbrev pub coordination_review_issue_severity_is_refused : CoordinationReviewIssueSeverity → Bool
coordination_review_issue_severity_is_refused CoordinationReviewIssueSeverity.refused = true
coordination_review_issue_severity_is_refused other = false

abbrev pub coordination_review_issue_severity_is_stale : CoordinationReviewIssueSeverity → Bool
coordination_review_issue_severity_is_stale CoordinationReviewIssueSeverity.stale = true
coordination_review_issue_severity_is_stale other = false

abbrev pub coordination_review_issue_severity_is_interrupt : CoordinationReviewIssueSeverity → Bool
coordination_review_issue_severity_is_interrupt CoordinationReviewIssueSeverity.interrupt = true
coordination_review_issue_severity_is_interrupt other = false

abbrev pub coordination_review_issue_severity_is_fault : CoordinationReviewIssueSeverity → Bool
coordination_review_issue_severity_is_fault CoordinationReviewIssueSeverity.fault = true
coordination_review_issue_severity_is_fault other = false

abbrev pub coordination_review_issue_kind_is_pending_human_override :
    CoordinationReviewIssueKind → Bool
coordination_review_issue_kind_is_pending_human_override
      CoordinationReviewIssueKind.pending_human_override =
    true
coordination_review_issue_kind_is_pending_human_override other = false

abbrev pub coordination_review_issue_kind_is_contested_claim : CoordinationReviewIssueKind → Bool
coordination_review_issue_kind_is_contested_claim CoordinationReviewIssueKind.contested_claim = true
coordination_review_issue_kind_is_contested_claim other = false

abbrev pub coordination_review_issue_kind_is_stale_claim : CoordinationReviewIssueKind → Bool
coordination_review_issue_kind_is_stale_claim CoordinationReviewIssueKind.stale_claim = true
coordination_review_issue_kind_is_stale_claim other = false

abbrev pub coordination_review_issue_kind_is_ambiguous_identity : CoordinationReviewIssueKind → Bool
coordination_review_issue_kind_is_ambiguous_identity
      CoordinationReviewIssueKind.ambiguous_identity =
    true
coordination_review_issue_kind_is_ambiguous_identity other = false

abbrev pub coordination_review_issue_kind_is_hidden_scope_expansion :
    CoordinationReviewIssueKind → Bool
coordination_review_issue_kind_is_hidden_scope_expansion
      CoordinationReviewIssueKind.hidden_scope_expansion =
    true
coordination_review_issue_kind_is_hidden_scope_expansion other = false
