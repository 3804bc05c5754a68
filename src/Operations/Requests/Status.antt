-- ===== src/Operations/Requests/Status.antt =====
-- The status of a list of issues: accepted exactly when there is none and the effect is known.
use lang_sop.Base.{
  ◌≡◌, refl, ◌∙◌, Bool, true, false, not, ◌&&◌, ◌||◌, List, [], ◌∷◌, any, is_empty, arith,
  if◌then◌else◌,
}
use lang_sop.Operations.Requests.Vocabulary.{
  OperationRequestIssueSeverity, OperationRequestStatus, OperationEffectClass,
}
use lang_sop.Operations.Requests.Fields.{
  operation_effect_class_is_unknown, operation_request_issue_kind_is_live_effect_requested,
  operation_request_issue_severity_is_blocked, operation_request_issue_severity_is_fault,
  operation_request_issue_severity_is_interrupt, operation_request_issue_severity_is_refused,
  operation_request_issue_severity_is_review_required, operation_request_issue_severity_is_stale,
  operation_request_status_is_accepted,
}
use lang_sop.Operations.Requests.Records.{OperationRequestValidationIssue}
use lang_sop.Operations.Requests.{operation_request_status_for_issues}

-- The chain of tests over any tests' results.
abbrev chain : Bool → Bool → Bool → Bool → Bool → Bool → Bool → Bool → OperationRequestStatus
chain f l r i s v b u =
    if f
    then OperationRequestStatus.faulted
    else if l
    then OperationRequestStatus.blocked_for_live_effect
    else if r
    then OperationRequestStatus.refused
    else if i
    then OperationRequestStatus.interrupted
    else if s
    then OperationRequestStatus.stale
    else if v
    then OperationRequestStatus.review_required
    else if b
    then OperationRequestStatus.blocked
    else if u
    then OperationRequestStatus.interrupted
    else OperationRequestStatus.accepted

chain-accepted :
    (f l r i s v b u : Bool)
    → operation_request_status_is_accepted (chain f l r i s v b u)
      ≡ (not (f || (r || (i || (s || (v || b))))) && (not l && not u))
chain-accepted f l r i s v b u = ground arith

-- Every severity is one of the six that are looked for.
has_severity :
    (s : OperationRequestIssueSeverity)
    → (operation_request_issue_severity_is_fault s
        || (operation_request_issue_severity_is_refused s
            || (operation_request_issue_severity_is_interrupt s
                || (operation_request_issue_severity_is_stale s
                    || (operation_request_issue_severity_is_review_required s
                        || operation_request_issue_severity_is_blocked s)))))
      ≡ true
has_severity OperationRequestIssueSeverity.fault = refl
has_severity OperationRequestIssueSeverity.refused = refl
has_severity OperationRequestIssueSeverity.interrupt = refl
has_severity OperationRequestIssueSeverity.stale = refl
has_severity OperationRequestIssueSeverity.review_required = refl
has_severity OperationRequestIssueSeverity.blocked = refl

-- The six tests on the first issue cover the list.
cover_lem :
    (f f' r r' i i' s s' v v' b b' : Bool)
    → (f || (r || (i || (s || (v || b))))) ≡ true
    → ((f || f') || ((r || r') || ((i || i') || ((s || s') || ((v || v') || (b || b')))))) ≡ true
cover_lem f f' r r' i i' s s' v v' b b' h = ground arith

abbrev found : (OperationRequestIssueSeverity → Bool) → List OperationRequestValidationIssue → Bool
found p issues = any (λ j. p j.severity) issues

any_severity :
    (issue : OperationRequestValidationIssue) (issues : List OperationRequestValidationIssue)
    → (found operation_request_issue_severity_is_fault (issue ∷ issues)
        || (found operation_request_issue_severity_is_refused (issue ∷ issues)
            || (found operation_request_issue_severity_is_interrupt (issue ∷ issues)
                || (found operation_request_issue_severity_is_stale (issue ∷ issues)
                    || (found operation_request_issue_severity_is_review_required (issue ∷ issues)
                        || found operation_request_issue_severity_is_blocked (issue ∷ issues))))))
      ≡ true
unfolding any
any_severity issue issues =
    cover_lem (operation_request_issue_severity_is_fault issue.severity)
      (found operation_request_issue_severity_is_fault issues)
      (operation_request_issue_severity_is_refused issue.severity)
      (found operation_request_issue_severity_is_refused issues)
      (operation_request_issue_severity_is_interrupt issue.severity)
      (found operation_request_issue_severity_is_interrupt issues)
      (operation_request_issue_severity_is_stale issue.severity)
      (found operation_request_issue_severity_is_stale issues)
      (operation_request_issue_severity_is_review_required issue.severity)
      (found operation_request_issue_severity_is_review_required issues)
      (operation_request_issue_severity_is_blocked issue.severity)
      (found operation_request_issue_severity_is_blocked issues) (has_severity issue.severity)

not_accepted_lem : (a l u : Bool) → a ≡ true → (not a && (not l && not u)) ≡ false
not_accepted_lem a l u h = ground arith

pub operation_request_status-accepted :
    (issues : List OperationRequestValidationIssue) (effect : OperationEffectClass)
    → operation_request_status_is_accepted (operation_request_status_for_issues issues effect)
      ≡ (is_empty issues && not (operation_effect_class_is_unknown effect))
unfolding operation_request_status_for_issues
operation_request_status-accepted [] effect =
    unfold any in
    (chain-accepted false false false false false false false
        (operation_effect_class_is_unknown effect)
      ∙ ground arith)
operation_request_status-accepted (issue ∷ issues) effect =
    chain-accepted (found operation_request_issue_severity_is_fault (issue ∷ issues))
      (any (λ j. operation_request_issue_kind_is_live_effect_requested j.issue_kind)
        (issue ∷ issues))
      (found operation_request_issue_severity_is_refused (issue ∷ issues))
      (found operation_request_issue_severity_is_interrupt (issue ∷ issues))
      (found operation_request_issue_severity_is_stale (issue ∷ issues))
      (found operation_request_issue_severity_is_review_required (issue ∷ issues))
      (found operation_request_issue_severity_is_blocked (issue ∷ issues))
      (operation_effect_class_is_unknown effect)
    ∙ not_accepted_lem _
        (any (λ j. operation_request_issue_kind_is_live_effect_requested j.issue_kind)
          (issue ∷ issues))
        (operation_effect_class_is_unknown effect) (any_severity issue issues)
