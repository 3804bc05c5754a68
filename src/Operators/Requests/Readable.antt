-- ===== src/Operators/Requests/Readable.antt =====
-- Which mappings `request_from_mapping` reads as a request.
use lang_sop.Base.{
  ◌≡◌, refl, ◌∙◌, sym, ◌↔◌, String, Bool, true, false, ◌&&◌, List, [], ◌∷◌, all, contains, all_iff,
  is_empty, is_some, both, arith, if◌then◌else◌,
}
use lang_sop.Text.{lower, strip}
use lang_sop.Operators.Values.{
  Object, none_value, boolean, text, sequence, other, Mapping, get, to_str, Converted, value,
  raised, ◌>>=◌, as_string_sequence, as_bool,
}
use lang_sop.Operators.Contracts.{
  OutcomeKind, OperatorRequest, ContractIssue, required_request_fields,
}
use lang_sop.Operators.Requests.{
  Resolved, request, refused, missing_fields, build_request, get_or, required, outcome_kind_of,
  resolve_built, resolve_missing, request_from_mapping,
}

-- A value that is read as a sequence of texts, and one that is read as a Boolean.
abbrev pub is_sequence_like : Object → Bool
is_sequence_like none_value = true
is_sequence_like (text s) = true
is_sequence_like (sequence shown items) = true
is_sequence_like o = false

abbrev pub is_bool_like : Object → Bool
unfolding contains
is_bool_like (boolean b) = true
is_bool_like (text s) =
    contains (lower (strip s)) ("true" ∷ "yes" ∷ "1" ∷ "false" ∷ "no" ∷ "0" ∷ [])
is_bool_like o = false

-- A mapping with every required field, and with values that can be converted.
pub record IsReadable (m : Mapping) : Type 0 where
  pub present :
      (name : String) → contains name required_request_fields ≡ true → is_some (get m name) ≡ true
  pub outcome :
      contains
        (to_str (required m "requested_outcome_kind"))
        ("success" ∷ "blocked_output" ∷ "fault_output" ∷ "sop_first_interrupt" ∷ [])
      ≡ true
  pub inputs : is_sequence_like (required m "input_ref_set") ≡ true
  pub basis : is_sequence_like (required m "authority_basis_ref_set") ≡ true
  pub outputs : is_sequence_like (required m "expected_output_kind_set") ≡ true
  pub refusal : is_bool_like (required m "refusal_allowed") ≡ true
  pub unsafe : is_sequence_like (get_or m "unsafe_operation_set" (sequence "()" [])) ≡ true
  pub presented :
      is_bool_like (get_or m "generated_projection_presented_as_authority" (boolean false)) ≡ true

abbrev pub is_request : Resolved → Bool
is_request (request r) = true
is_request (refused v) = false

abbrev returns {ℓ} : {A : Type ℓ} → Converted A → Bool
returns (value a) = true
returns (raised message) = false

returns-bind {ℓ κ} :
    {A : Type ℓ} {B : Type κ} (c : Converted A) (f : A → Converted B) (b : Bool)
    → ((a : A) → returns (f a) ≡ b)
    → returns (c >>= f) ≡ (returns c && b)
returns-bind (value a) f b h = h a
returns-bind (raised message) f b h = refl

returns-sequence : (o : Object) → returns (as_string_sequence o) ≡ is_sequence_like o
unfolding as_string_sequence
returns-sequence none_value = refl
returns-sequence (text s) = refl
returns-sequence (sequence shown items) = refl
returns-sequence (boolean b) = refl
returns-sequence (other name shown represented) = refl

returns-if {ℓ} :
    {A : Type ℓ} (b : Bool) (c d : Converted A)
    → returns (if b then c else d) ≡ (if b then returns c else returns d)
returns-if true c d = refl
returns-if false c d = refl

returns-outcome :
    (s : String)
    → returns (outcome_kind_of s)
      ≡ contains s ("success" ∷ "blocked_output" ∷ "fault_output" ∷ "sop_first_interrupt" ∷ [])
unfolding outcome_kind_of contains
returns-outcome s = simp (returns-if) (ground arith)

returns-bool : (o : Object) → returns (as_bool o) ≡ is_bool_like o
unfolding as_bool contains
returns-bool none_value = refl
returns-bool (boolean b) = refl
returns-bool (sequence shown items) = refl
returns-bool (other name shown represented) = refl
returns-bool (text s) = simp (returns-if) (ground arith)

-- The tests of a mapping whose fields are there.
abbrev conversions : Mapping → Bool
conversions m =
    contains (to_str (required m "requested_outcome_kind"))
      ("success" ∷ "blocked_output" ∷ "fault_output" ∷ "sop_first_interrupt" ∷ [])
    && (is_sequence_like (required m "input_ref_set")
        && (is_sequence_like (required m "authority_basis_ref_set")
            && (is_sequence_like (required m "expected_output_kind_set")
                && (is_bool_like (required m "refusal_allowed")
                    && (is_sequence_like (get_or m "unsafe_operation_set" (sequence "()" []))
                        && (is_bool_like (
                              get_or m "generated_projection_presented_as_authority"
                                (boolean false))
                            && true))))))

returns-build_request : (m : Mapping) → returns (build_request m) ≡ conversions m
unfolding build_request
returns-build_request m =
    rw
      (
        ← returns-outcome (to_str (required m "requested_outcome_kind")),
        ← returns-sequence (required m "input_ref_set"),
        ← returns-sequence (required m "authority_basis_ref_set"),
        ← returns-sequence (required m "expected_output_kind_set"),
        ← returns-bool (required m "refusal_allowed"),
        ← returns-sequence (get_or m "unsafe_operation_set" (sequence "()" [])),
        ← returns-bool (get_or m "generated_projection_presented_as_authority" (boolean false)),
      )
      (returns-bind {A = OutcomeKind} {B = OperatorRequest}
        (outcome_kind_of (to_str (required m "requested_outcome_kind"))) _ _
        (λ kind.
          returns-bind {A = List String} {B = OperatorRequest}
            (as_string_sequence (required m "input_ref_set")) _ _
            (λ inputs.
              returns-bind {A = List String} {B = OperatorRequest}
                (as_string_sequence (required m "authority_basis_ref_set")) _ _
                (λ basis.
                  returns-bind {A = List String} {B = OperatorRequest}
                    (as_string_sequence (required m "expected_output_kind_set")) _ _
                    (λ outputs.
                      returns-bind {A = Bool} {B = OperatorRequest}
                        (as_bool (required m "refusal_allowed")) _ _
                        (λ refusal.
                          returns-bind {A = List String} {B = OperatorRequest}
                            (as_string_sequence
                              (get_or m "unsafe_operation_set" (sequence "()" [])))
                            _ _
                            (λ unsafe.
                              returns-bind {A = Bool} {B = OperatorRequest}
                                (as_bool (
                                  get_or m "generated_projection_presented_as_authority"
                                    (boolean false)))
                                _ _ (λ presented. refl))))))))

is_empty-missing_fields :
    (m : Mapping) (names : List String)
    → is_empty (missing_fields m names) ≡ all (λ name. is_some (get m name)) names
unfolding missing_fields all
is_empty-missing_fields m [] = refl
is_empty-missing_fields m (name ∷ names) = ground (arith, is_empty-missing_fields m names)

is_request-built : (b : Converted OperatorRequest) → is_request (resolve_built b) ≡ returns b
is_request-built (value r) = refl
is_request-built (raised message) = refl

is_request-resolved :
    (issues : List ContractIssue) (m : Mapping)
    → is_request (resolve_missing issues m) ≡ (is_empty issues && returns (build_request m))
is_request-resolved [] m = is_request-built (build_request m)
is_request-resolved (i ∷ is) m = refl

is_request-tests :
    (m : Mapping)
    → is_request (request_from_mapping m)
      ≡ (all (λ name. is_some (get m name)) required_request_fields && conversions m)
unfolding request_from_mapping
is_request-tests m =
    is_request-resolved (missing_fields m required_request_fields) m
    ∙ rw (is_empty-missing_fields m required_request_fields, returns-build_request m) refl

-- A mapping becomes a request exactly when it has every required field, its outcome is one of the four,
-- its sequences are `None`, a text or a sequence, and its flags are Booleans or texts for them, where the
-- unsafe operations and the flag of a projection may be left out.
pub request_from_mapping-IsReadable :
    (m : Mapping) → (is_request (request_from_mapping m) ≡ true) ↔ IsReadable m
request_from_mapping-IsReadable m =
    let names = all_iff (λ name. is_some (get m name)) required_request_fields in
    (
      λ h.
          let (present, t) = both (sym (is_request-tests m) ∙ h) in
          let (outcome, t) = both t in
          let (inputs, t) = both t in
          let (basis, t) = both t in
          let (outputs, t) = both t in
          let (refusal, t) = both t in
          let (unsafe, t) = both t in
          let (presented, t) = both t in
          record {
            present = names.0 present;
            outcome = outcome;
            inputs = inputs;
            basis = basis;
            outputs = outputs;
            refusal = refusal;
            unsafe = unsafe;
            presented = presented;
          },
      λ r.
          is_request-tests m
          ∙ rw
              (
                names.1 r.present,
                r.outcome,
                r.inputs,
                r.basis,
                r.outputs,
                r.refusal,
                r.unsafe,
                r.presented,
              )
              refl,
    )
