-- ===== src/Operators/Traces/Shape.antt =====
-- Which trace mappings `validate_trace_mapping` accepts.
use lang_sop.Base.{
  ◌≡◌, refl, ◌∙◌, ap, String, Bool, true, false, not, ◌&&◌, List, [], ◌∷◌, ◌++◌, arith, all,
  contains, only_if, is_empty, is_some,
}
use lang_sop.Operators.Values.{Mapping, get}
use lang_sop.Operators.Traces.{
  absent_fields, is_warning, required_trace_fields, validate_trace_mapping,
}

is_empty-absent_fields :
    (m : Mapping) (names : List String)
    → is_empty (absent_fields m names) ≡ all (λ name. is_some (get m name)) names
unfolding absent_fields all
is_empty-absent_fields m [] = refl
is_empty-absent_fields m (name ∷ names) = ground (arith, is_empty-absent_fields m names)

is_empty-with_warning :
    (absent : List String) (warned : Bool) (name : String)
    → is_empty (absent ++ only_if (not warned && not (contains name absent)) name)
      ≡ (is_empty absent && warned)
unfolding contains
is_empty-with_warning [] true name = refl
is_empty-with_warning [] false name = refl
is_empty-with_warning (a ∷ absent) warned name = refl

-- A trace mapping is accepted exactly when it has every required field and its warning is the one
-- that says that traces hold no authority.
pub validate_trace_mapping-accepted :
    (m : Mapping)
    → (validate_trace_mapping m).accepted ≡ (
        all (λ name. is_some (get m name)) required_trace_fields
        && is_warning (get m "non_authority_warning"))
unfolding validate_trace_mapping
validate_trace_mapping-accepted m =
    is_empty-with_warning (absent_fields m required_trace_fields)
      (is_warning (get m "non_authority_warning")) "non_authority_warning"
    ∙ ap (λ b. b && is_warning (get m "non_authority_warning"))
        (is_empty-absent_fields m required_trace_fields)
