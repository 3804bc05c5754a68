-- ===== src/Manager/Faults/Recorded.antt =====
-- Every issue of a cycle has a valid fault record.
use text.Mathlib.TextLemmas.{cons-append}
use lang_sop.Base.{
  ◌≡◌, refl, ap, String, ◌<>◌, true, false, List, [], ◌∷◌, length, all, is_empty, is_empty_text,
  suc, arith,
}
use lang_sop.Records.{member}
use lang_sop.Operators.Values.{Converted, value, ◌>>=◌}
use lang_sop.Manager.Vocabulary.{ManagerIssueSeverity, manager_issue_severity_value}
use lang_sop.Manager.Records.{ManagerIssue, ManagerReadinessResult}
use lang_sop.Manager.Faults.Vocabulary.{
  ManagerFaultSeverity, manager_fault_severity_value, manager_fault_severity_members,
  manager_fault_kind_value,
}
use lang_sop.Manager.Faults.{
  ManagerFaultRecord, fault_kind_for_issue_kind, manager_fault_record_from_issue, fault_records_of,
  missing_requirement_for_issue, triggering_refs, manager_fault_records_from_readiness,
  validate_manager_fault_record,
}

-- A result with one valid record for each issue.
pub data IsRecorded (issues : List ManagerIssue)
    : Converted (List ManagerFaultRecord) → Type 0 where
  recorded :
      (rs : List ManagerFaultRecord)
      → length rs ≡ length issues
      → all validate_manager_fault_record rs ≡ true
      → IsRecorded issues (value rs)

data IsValid : Converted ManagerFaultRecord → Type 0 where
  valid : (r : ManagerFaultRecord) → validate_manager_fault_record r ≡ true → IsValid (value r)

is_empty_text-left : (a b : String) → is_empty_text a ≡ false → is_empty_text (a <> b) ≡ false
is_empty_text-left String.[] b h = cc
is_empty_text-left (String.◌∷◌ c a) b h = rw (cons-append c a b) refl

-- Every severity of an issue is one of a fault.
severity_lem :
    (s : ManagerIssueSeverity)
    → (m : ManagerFaultSeverity) × (member manager_fault_severity_value "ManagerFaultSeverity"
          manager_fault_severity_members
          (manager_issue_severity_value s)
        ≡ value m)
unfolding member manager_fault_severity_value manager_issue_severity_value
severity_lem ManagerIssueSeverity.blocked = (ManagerFaultSeverity.blocked, refl)
severity_lem ManagerIssueSeverity.stale = (ManagerFaultSeverity.stale, refl)
severity_lem ManagerIssueSeverity.fault = (ManagerFaultSeverity.fault, refl)
severity_lem ManagerIssueSeverity.interrupt = (ManagerFaultSeverity.interrupt, refl)
severity_lem ManagerIssueSeverity.refused = (ManagerFaultSeverity.refused, refl)

module _ (work_ref : String) (evidence : List String) (named : is_empty_text work_ref ≡ false)
    (evident : is_empty evidence ≡ false) where
  manager_fault_record_from_issue-IsValid :
      (issue : ManagerIssue) (triggers missing : List String)
      → IsValid (manager_fault_record_from_issue issue work_ref evidence triggers missing)
  unfolding manager_fault_record_from_issue validate_manager_fault_record
  manager_fault_record_from_issue-IsValid issue triggers missing =
      rw ((severity_lem issue.severity).1) (
        valid _ (
          rw
            (
              named,
              is_empty_text-left work_ref
                  (":" <> manager_fault_kind_value (fault_kind_for_issue_kind issue.issue_kind))
                  named,
              evident,
            )
            refl))

  recorded_lem :
      (issue : ManagerIssue) (issues : List ManagerIssue) {r : Converted ManagerFaultRecord}
      {rs : Converted (List ManagerFaultRecord)}
      → IsValid r
      → IsRecorded issues rs
      → IsRecorded (issue ∷ issues) (r >>= (λ given. rs >>= (λ rest. value (given ∷ rest))))
  unfolding all
  recorded_lem issue issues (valid r h) (recorded rs n k) =
      recorded (r ∷ rs) (ap suc n) (ground (arith, h, k))

  fault_records_of-IsRecorded :
      (issues : List ManagerIssue) → IsRecorded issues (fault_records_of work_ref evidence issues)
  unfolding fault_records_of all
  fault_records_of-IsRecorded [] = recorded [] refl refl
  fault_records_of-IsRecorded (issue ∷ issues) =
      recorded_lem issue issues
        (manager_fault_record_from_issue-IsValid issue (triggering_refs issue)
          (missing_requirement_for_issue issue))
        (fault_records_of-IsRecorded issues)

  -- For a work reference and evidence that are not empty, the issues of a readiness never raise: each
  -- has one fault record, and every record is valid.
  pub manager_fault_records-IsRecorded :
      (readiness : ManagerReadinessResult)
      → IsRecorded readiness.issues
          (manager_fault_records_from_readiness readiness work_ref evidence)
  unfolding manager_fault_records_from_readiness
  manager_fault_records-IsRecorded readiness = fault_records_of-IsRecorded readiness.issues
