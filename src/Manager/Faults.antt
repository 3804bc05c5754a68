-- ===== src/Manager/Faults.antt =====
-- src/langsop/manager/faults.py: the fault records of the issues of a cycle.
pub mod Vocabulary
pub mod Recorded
use lang_sop.Base.{
  ◌≡◌, refl, String, ◌<>◌, Bool, true, false, not, ◌&&◌, ◌||◌, ◌==◌, Option, List, [], ◌∷◌,
  contains, is_empty, is_empty_text, is_missing, or_empty, only_if, if◌then◌else◌,
}
use lang_sop.Records.{member}
use lang_sop.Operators.Values.{Converted, value, raised, ◌>>=◌}
use lang_sop.Manager.Vocabulary.{
  ManagerIssueKind, ManagerIssueSeverity, manager_issue_kind_value, manager_issue_severity_value,
}
use lang_sop.Manager.Fields.{no_dispatch_notice}
use lang_sop.Manager.Records.{ManagerIssue, ManagerReadinessResult}
use lang_sop.Manager.Faults.Vocabulary.{
  ManagerFaultKind, ManagerFaultSeverity, manager_fault_kind_value, manager_fault_kind_members,
  manager_fault_severity_value, manager_fault_severity_members, manager_issue_severity_str,
  needs_refresh, needs_classification, needs_refusal,
}

pub record ManagerFaultRecord : Type 0 where
  pub fault_id : String
  pub fault_kind : ManagerFaultKind
  pub severity : ManagerFaultSeverity
  pub work_ref : String
  pub evidence_ref_set : List String
  pub triggering_record_ref_set : List String
  pub missing_requirement_set : List String
  pub safe_next_route : String
  pub non_authority_notice : String
  pub dispatch_authorized : Bool
  pub live_effect_performed : Bool

-- `except ValueError`: the kind for a text that is no value.
abbrev or_unknown : Converted ManagerFaultKind → ManagerFaultKind
or_unknown (value kind) = kind
or_unknown (raised message) = ManagerFaultKind.unknown_manager_fault

unfoldable pub fault_kind_for_issue_kind : ManagerIssueKind → ManagerFaultKind
unfolding member manager_fault_kind_value manager_issue_kind_value
fault_kind_for_issue_kind issue_kind = or_unknown (
    member manager_fault_kind_value "ManagerFaultKind" manager_fault_kind_members
      (manager_issue_kind_value issue_kind))

unfoldable pub safe_next_route_for_fault : ManagerFaultKind → ManagerIssueSeverity → String
unfolding manager_issue_severity_str contains manager_issue_severity_value
    manager_fault_severity_value
safe_next_route_for_fault fault_kind severity =
    if needs_refresh fault_kind
    then "rebake_or_refresh_authority"
    else if needs_classification fault_kind
    then "classify_and_route_before_action"
    else if needs_refusal fault_kind
    then "refuse_and_require_separate_authority"
    else if contains (manager_issue_severity_str severity) (
        manager_issue_severity_value ManagerIssueSeverity.interrupt
        ∷ manager_fault_severity_value ManagerFaultSeverity.interrupt
        ∷ [])
    then "SOP_first_interrupt_review"
    else "SOP_first_review"

unfoldable pub missing_requirement_for_issue : ManagerIssue → List String
missing_requirement_for_issue issue = elim issue.issue_kind [
  | ManagerIssueKind.unsupported_requirement ↦ "accepted_support_record" ∷ []
  | ManagerIssueKind.model_route_ambiguity ↦ "model_route" ∷ []
  | ManagerIssueKind.completion_gate_bypass ↦ "completion_review" ∷ []
  | ManagerIssueKind.proof_obligation_bypass ↦ "proof_obligation" ∷ []
  | _ ↦ []
]

unfoldable pub manager_fault_record_from_issue :
    ManagerIssue → String → List String → List String → List String → Converted ManagerFaultRecord
unfolding fault_kind_for_issue_kind manager_fault_kind_value member manager_fault_severity_value
    manager_issue_severity_value safe_next_route_for_fault
manager_fault_record_from_issue issue work_ref evidence_ref_set triggering_record_ref_set
      missing_requirement_set =
    do
      severity_member ←
          member manager_fault_severity_value "ManagerFaultSeverity" manager_fault_severity_members
            (manager_issue_severity_value issue.severity)
      value (record {
        fault_id =
            work_ref
            <> (":" <> manager_fault_kind_value (fault_kind_for_issue_kind issue.issue_kind));
        fault_kind = fault_kind_for_issue_kind issue.issue_kind;
        severity = severity_member;
        work_ref = work_ref;
        evidence_ref_set = evidence_ref_set;
        triggering_record_ref_set = triggering_record_ref_set;
        missing_requirement_set = missing_requirement_set;
        safe_next_route =
            safe_next_route_for_fault (fault_kind_for_issue_kind issue.issue_kind) issue.severity;
        non_authority_notice = no_dispatch_notice;
        dispatch_authorized = false;
        live_effect_performed = false;
      })

-- `(issue.field_name,) if issue.field_name else ()`
abbrev pub triggering_refs : ManagerIssue → List String
triggering_refs issue = only_if (not (is_missing issue.field_name)) (or_empty issue.field_name)

unfoldable pub fault_records_of :
    String → List String → List ManagerIssue → Converted (List ManagerFaultRecord)
unfolding manager_fault_record_from_issue missing_requirement_for_issue or_empty
fault_records_of work_ref evidence [] = value []
fault_records_of work_ref evidence (issue ∷ issues) = do
  given ←
      manager_fault_record_from_issue issue work_ref evidence (triggering_refs issue)
        (missing_requirement_for_issue issue)
  rest ← fault_records_of work_ref evidence issues
  value (given ∷ rest)

unfoldable pub manager_fault_records_from_readiness :
    ManagerReadinessResult → String → List String → Converted (List ManagerFaultRecord)
unfolding fault_records_of
manager_fault_records_from_readiness readiness work_ref evidence_ref_set =
    fault_records_of work_ref evidence_ref_set readiness.issues

unfoldable pub validate_manager_fault_record : ManagerFaultRecord → Bool
validate_manager_fault_record given =
    not (is_empty_text given.fault_id)
    && (not (is_empty_text given.work_ref)
        && ((not (is_empty given.evidence_ref_set)
              || (not (is_empty given.triggering_record_ref_set)
                  || not (is_empty given.missing_requirement_set)))
            && ((given.non_authority_notice == no_dispatch_notice)
                && (not given.dispatch_authorized && not given.live_effect_performed))))
