-- ===== src/Operators/Contracts/Admission.antt =====
-- Which requests `validate_operator_request` accepts, and how it classifies the others.
use mathlib.Core.Bool.{not-not}
use lang_sop.Base.{
  ◌≡◌, refl, ◌∙◌, ◌≢◌, ◌↔◌, String, Bool, true, false, not, ◌&&◌, ◌||◌, List, [], ◌∷◌, ◌==◌, eq_iff,
  arith, all, any, map, contains, is_empty, is_empty-append, is_empty-only_if, is_empty-map,
  any-append, any-only_if, all_iff, none_iff,
}
use lang_sop.Text.Sets.{difference, intersection}
use lang_sop.Text.Sets.Laws.{is_empty-sorted, is_empty-difference, is_empty-intersection}
use lang_sop.Operators.Contracts.{
  OperatorRequest, OperatorContract, is_fault, is_interrupt, is_blocked, has_fault, has_interrupt,
  has_blocker, undeclared_issue, unsafe_issue, undeclared_outputs, unsafe_operations,
  unsafe_operation_markers, validate_operator_request,
}

is_empty-undeclared_outputs :
    (r : OperatorRequest) (c : OperatorContract)
    → is_empty (undeclared_outputs r c)
      ≡ all (λ k. contains k c.output_record_kind_set) r.expected_output_kind_set
unfolding undeclared_outputs
is_empty-undeclared_outputs r c =
    is_empty-sorted (difference r.expected_output_kind_set c.output_record_kind_set)
    ∙ is_empty-difference r.expected_output_kind_set c.output_record_kind_set

is_empty-unsafe_operations :
    (r : OperatorRequest)
    → is_empty (unsafe_operations r)
      ≡ not (any (λ m. contains m unsafe_operation_markers) r.unsafe_operation_set)
unfolding unsafe_operations
is_empty-unsafe_operations r =
    is_empty-sorted (intersection r.unsafe_operation_set unsafe_operation_markers)
    ∙ is_empty-intersection r.unsafe_operation_set unsafe_operation_markers

pub accepted-tests :
    (r : OperatorRequest) (c : OperatorContract) (scope : String)
    → (validate_operator_request r c scope).accepted ≡ (
        (r.requested_operator_id == c.operator_id)
        && ((r.requested_operator_version == c.operator_version)
            && (r.refusal_allowed
                && (is_empty (undeclared_outputs r c)
                    && ((r.authority_basis_state == "current")
                        && (not r.generated_projection_presented_as_authority
                            && (not (r.input_identity_state == "ambiguous")
                                && ((r.requested_scope == scope)
                                    && is_empty (unsafe_operations r)))))))))
unfolding validate_operator_request
accepted-tests r c scope = simp (is_empty-append, is_empty-only_if, is_empty-map, not-not)

-- What a request must satisfy to be run under a contract and a scope.
pub record IsAdmissible (r : OperatorRequest) (c : OperatorContract) (scope : String) : Type 0 where
  pub operator : r.requested_operator_id ≡ c.operator_id
  pub version : r.requested_operator_version ≡ c.operator_version
  pub refusable : r.refusal_allowed ≡ true
  pub declared :
      (k : String)
      → contains k r.expected_output_kind_set ≡ true
      → contains k c.output_record_kind_set ≡ true
  pub current : r.authority_basis_state ≡ "current"
  pub not_generated : r.generated_projection_presented_as_authority ≡ false
  pub unambiguous : r.input_identity_state ≢ "ambiguous"
  pub in_scope : r.requested_scope ≡ scope
  pub safe :
      (m : String)
      → contains m r.unsafe_operation_set ≡ true
      → contains m unsafe_operation_markers ≡ false

module _ (r : OperatorRequest) (c : OperatorContract) (scope : String) where
  IsAdmissible-of_accepted :
      (validate_operator_request r c scope).accepted ≡ true → IsAdmissible r c scope
  IsAdmissible-of_accepted h =
      let t = accepted-tests r c scope in
      record {
        operator = ground (arith, t, eq_iff r.requested_operator_id c.operator_id);
        version = ground (arith, t, eq_iff r.requested_operator_version c.operator_version);
        refusable = ground (arith, t);
        declared = (all_iff _ _).0 (ground (arith, t, is_empty-undeclared_outputs r c));
        current = ground (arith, t, eq_iff r.authority_basis_state "current");
        not_generated = ground (arith, t);
        unambiguous = ground (arith, t, eq_iff r.input_identity_state "ambiguous");
        in_scope = ground (arith, t, eq_iff r.requested_scope scope);
        safe = (none_iff _ _).0 (ground (arith, t, is_empty-unsafe_operations r));
      }

  accepted_of_IsAdmissible :
      IsAdmissible r c scope → (validate_operator_request r c scope).accepted ≡ true
  accepted_of_IsAdmissible a =
      let d = is_empty-undeclared_outputs r c ∙ (all_iff _ _).1 a.declared in
      let u = is_empty-unsafe_operations r ∙ (none_iff _ _).1 a.safe in
      rw accepted-tests (
        ground (
          arith,
          d,
          u,
          eq_iff r.requested_operator_id c.operator_id,
          eq_iff r.requested_operator_version c.operator_version,
          eq_iff r.authority_basis_state "current",
          eq_iff r.input_identity_state "ambiguous",
          eq_iff r.requested_scope scope,
        ))

-- A request is accepted exactly when it is admissible: it names the contract's operator and version,
-- allows refusal, expects declared outputs only, has a current authority basis that is no generated
-- projection, an identity that is not ambiguous, the accepted scope, and no unsafe operation.
pub validate-accepted_iff :
    (r : OperatorRequest) (c : OperatorContract) (scope : String)
    → ((validate_operator_request r c scope).accepted ≡ true) ↔ IsAdmissible r c scope
validate-accepted_iff r c scope =
    (IsAdmissible-of_accepted r c scope, accepted_of_IsAdmissible r c scope)

any_fault-undeclared :
    (ks : List String) → any is_fault (map undeclared_issue ks) ≡ not (is_empty ks)
unfolding any is_fault
any_fault-undeclared [] = refl
any_fault-undeclared (k ∷ ks) = refl

any_fault-unsafe : (ks : List String) → any is_fault (map unsafe_issue ks) ≡ not (is_empty ks)
unfolding any is_fault
any_fault-unsafe [] = refl
any_fault-unsafe (k ∷ ks) = refl

no_undeclared :
    (ks : List String)
    → (any is_interrupt (map undeclared_issue ks) ≡ false)
      × (any is_blocked (map undeclared_issue ks) ≡ false)
unfolding any is_interrupt is_blocked
no_undeclared [] = (refl, refl)
no_undeclared (k ∷ ks) = no_undeclared ks

no_unsafe :
    (ks : List String)
    → (any is_interrupt (map unsafe_issue ks) ≡ false)
      × (any is_blocked (map unsafe_issue ks) ≡ false)
unfolding any is_interrupt is_blocked
no_unsafe [] = (refl, refl)
no_unsafe (k ∷ ks) = no_unsafe ks

-- The conditions that are faults, and those that only block.
abbrev pub is_faulty : OperatorRequest → OperatorContract → Bool
is_faulty r c =
    not (r.requested_operator_id == c.operator_id)
    || not r.refusal_allowed
    || not (is_empty (undeclared_outputs r c))
    || r.generated_projection_presented_as_authority
    || not (is_empty (unsafe_operations r))

abbrev pub is_unsupported : OperatorRequest → OperatorContract → String → Bool
is_unsupported r c scope =
    not (r.requested_operator_version == c.operator_version)
    || not (r.authority_basis_state == "current")
    || not (r.requested_scope == scope)

pub has_fault-validate :
    (r : OperatorRequest) (c : OperatorContract) (scope : String)
    → has_fault (validate_operator_request r c scope) ≡ is_faulty r c
unfolding has_fault is_fault validate_operator_request
has_fault-validate r c scope =
    simp (any-append, any-only_if, any_fault-undeclared, any_fault-unsafe) (ground arith)

pub has_interrupt-validate :
    (r : OperatorRequest) (c : OperatorContract) (scope : String)
    → has_interrupt (validate_operator_request r c scope) ≡ (r.input_identity_state == "ambiguous")
unfolding has_interrupt is_interrupt validate_operator_request
has_interrupt-validate r c scope =
    let u = no_undeclared (undeclared_outputs r c) in
    let w = no_unsafe (unsafe_operations r) in
    simp (any-append, any-only_if, u.0, w.0) (ground arith)

pub has_blocker-validate :
    (r : OperatorRequest) (c : OperatorContract) (scope : String)
    → has_blocker (validate_operator_request r c scope) ≡ is_unsupported r c scope
unfolding has_blocker is_blocked validate_operator_request
has_blocker-validate r c scope =
    let u = no_undeclared (undeclared_outputs r c) in
    let w = no_unsafe (unsafe_operations r) in
    simp (any-append, any-only_if, u.1, w.1) (ground arith)
