-- ===== src/Operators/Contracts.antt =====
-- src/langsop/operators/contracts.py: the records, and the check of a request against a contract.
pub mod Admission
use lang_sop.Base.{
  String, ◌<>◌, Bool, true, false, not, Option, none, some, List, [], ◌∷◌, ◌++◌, ◌==◌, any, map,
  only_if, is_empty,
}
use lang_sop.Text.Sets.{sorted, difference, intersection}

pub data OutcomeKind : Type 0 where
  success blocked_output fault_output sop_first_interrupt : OutcomeKind

unfoldable pub outcome_kind_value : OutcomeKind → String
outcome_kind_value success = "success"
outcome_kind_value blocked_output = "blocked_output"
outcome_kind_value fault_output = "fault_output"
outcome_kind_value sop_first_interrupt = "sop_first_interrupt"

pub data ContractIssueKind : Type 0 where
  missing_field invalid_field stale_authority undeclared_output : ContractIssueKind
  unsafe_operation generated_authority unsupported_scope ambiguous_identity : ContractIssueKind

unfoldable pub issue_kind_value : ContractIssueKind → String
issue_kind_value missing_field = "missing_field"
issue_kind_value invalid_field = "invalid_field"
issue_kind_value stale_authority = "stale_authority"
issue_kind_value undeclared_output = "undeclared_output"
issue_kind_value unsafe_operation = "unsafe_operation"
issue_kind_value generated_authority = "generated_authority"
issue_kind_value unsupported_scope = "unsupported_scope"
issue_kind_value ambiguous_identity = "ambiguous_identity"

pub data IssueSeverity : Type 0 where
  blocked fault interrupt : IssueSeverity

abbrev pub required_request_fields : List String
required_request_fields =
    "request_id" ∷ "request_uuid" ∷ "slice_id" ∷ "requested_operator_id"
    ∷ "requested_operator_version" ∷ "requested_outcome_kind" ∷ "input_ref_set"
    ∷ "authority_basis_ref_set" ∷ "expected_output_kind_set" ∷ "generated_output_policy_ref"
    ∷ "safety_limit_ref" ∷ "refusal_allowed" ∷ []

abbrev pub unsafe_operation_markers : List String
unsafe_operation_markers =
    "credential_access" ∷ "destructive_filesystem" ∷ "dispatch" ∷ "gpu_control" ∷ "job_control"
    ∷ "live_dispatch" ∷ "live_machine_control" ∷ "network_control" ∷ "operations_control"
    ∷ "process_control" ∷ []

pub record OperatorContract : Type 0 where
  pub operator_id : String
  pub operator_version : String
  pub output_record_kind_set : List String
  pub authority_basis_ref_set : List String

pub record OperatorRequest : Type 0 where
  pub request_id : String
  pub request_uuid : String
  pub slice_id : String
  pub requested_operator_id : String
  pub requested_operator_version : String
  pub requested_outcome_kind : OutcomeKind
  pub input_ref_set : List String
  pub authority_basis_ref_set : List String
  pub expected_output_kind_set : List String
  pub generated_output_policy_ref : String
  pub safety_limit_ref : String
  pub refusal_allowed : Bool
  pub completion_review_ref : Option String
  pub model_route : Option String
  pub authority_basis_state : String
  pub input_identity_state : String
  pub requested_scope : String
  pub unsafe_operation_set : List String
  pub generated_projection_presented_as_authority : Bool

pub record ContractIssue : Type 0 where
  pub issue_kind : ContractIssueKind
  pub severity : IssueSeverity
  pub reason : String
  pub field_name : Option String

abbrev pub issue : ContractIssueKind → IssueSeverity → String → String → ContractIssue
issue k s r f = record { issue_kind = k; severity = s; reason = r; field_name = some f }

pub record ContractValidationResult : Type 0 where
  pub accepted : Bool
  pub issues : List ContractIssue

abbrev pub result_of : List ContractIssue → ContractValidationResult
result_of issues = record { accepted = is_empty issues; issues = issues }

unfoldable pub is_fault : ContractIssue → Bool
is_fault i = elim i.severity [ fault ↦ true | _ ↦ false ]

unfoldable pub is_interrupt : ContractIssue → Bool
is_interrupt i = elim i.severity [ interrupt ↦ true | _ ↦ false ]

unfoldable pub is_blocked : ContractIssue → Bool
is_blocked i = elim i.severity [ blocked ↦ true | _ ↦ false ]

unfoldable pub has_fault : ContractValidationResult → Bool
has_fault v = any is_fault v.issues

unfoldable pub has_interrupt : ContractValidationResult → Bool
has_interrupt v = any is_interrupt v.issues

unfoldable pub has_blocker : ContractValidationResult → Bool
has_blocker v = any is_blocked v.issues

abbrev pub undeclared_issue : String → ContractIssue
undeclared_issue kind =
    issue undeclared_output fault ("undeclared output kind requested: " <> kind)
      "expected_output_kind_set"

abbrev pub unsafe_issue : String → ContractIssue
unsafe_issue marker =
    issue unsafe_operation fault ("unsafe operation requested: " <> marker) "unsafe_operation_set"

-- The sorted outputs that the contract does not declare, and the sorted unsafe operations.
unfoldable pub undeclared_outputs : OperatorRequest → OperatorContract → List String
unfolding sorted difference
undeclared_outputs r c = sorted (difference r.expected_output_kind_set c.output_record_kind_set)

unfoldable pub unsafe_operations : OperatorRequest → List String
unfolding sorted intersection
unsafe_operations r = sorted (intersection r.unsafe_operation_set unsafe_operation_markers)

unfoldable pub validate_operator_request :
    OperatorRequest → OperatorContract → String → ContractValidationResult
unfolding undeclared_outputs unsafe_operations
validate_operator_request r c accepted_scope = result_of (
    only_if (not (r.requested_operator_id == c.operator_id)) (
      issue invalid_field fault "requested operator id does not match contract"
        "requested_operator_id")
    ++ (only_if (not (r.requested_operator_version == c.operator_version)) (
          issue missing_field blocked "requested operator version is missing or not accepted"
            "requested_operator_version")
        ++ (only_if (not r.refusal_allowed)
              (issue invalid_field fault "operator requests must allow refusal" "refusal_allowed")
            ++ (map undeclared_issue (undeclared_outputs r c)
                ++ (only_if (not (r.authority_basis_state == "current")) (
                      issue stale_authority blocked "authority basis is not current"
                        "authority_basis_state")
                    ++ (only_if r.generated_projection_presented_as_authority (
                          issue generated_authority fault
                            "generated projection was presented as source authority"
                            "authority_basis_ref_set")
                        ++ (only_if (r.input_identity_state == "ambiguous") (
                              issue ambiguous_identity interrupt "input identity is ambiguous"
                                "input_identity_state")
                            ++ (only_if (not (r.requested_scope == accepted_scope)) (
                                  issue unsupported_scope blocked
                                    "requested scope is outside accepted activation boundary"
                                    "requested_scope")
                                ++ map unsafe_issue (unsafe_operations r)))))))))
