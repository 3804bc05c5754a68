-- ===== src/Operators/Requests/Shape.antt =====
-- What `request_from_mapping` refuses is refused with a fault.
use lang_sop.Base.{
  ◌≡◌, refl, ◌∙◌, ap, String, true, false, not, List, [], ◌∷◌, arith, any, map, is_some, keep,
}
use lang_sop.Operators.Values.{Mapping, get, Converted, value, raised}
use lang_sop.Operators.Contracts.{OperatorRequest, is_fault, has_fault, required_request_fields}
use lang_sop.Operators.Requests.{
  Resolved, request, refused, missing_issue, missing_fields, build_request, resolve_built,
  resolve_missing, request_from_mapping,
}

missing_fields-map :
    (m : Mapping) (names : List String)
    → missing_fields m names ≡ map missing_issue (keep (λ name. not (is_some (get m name))) names)
unfolding missing_fields keep
missing_fields-map m [] = refl
missing_fields-map m (name ∷ names) = ground (arith, missing_fields-map m names)

request_from_mapping_lem :
    (m : Mapping)
    → request_from_mapping m ≡ resolve_missing (missing_fields m required_request_fields) m
unfolding request_from_mapping
request_from_mapping_lem m = refl

-- The required names that a mapping lacks, in the order of the requirements.
abbrev pub lacking : Mapping → List String
lacking m = keep (λ name. not (is_some (get m name))) required_request_fields

request_from_mapping-lacking :
    (m : Mapping) → request_from_mapping m ≡ resolve_missing (map missing_issue (lacking m)) m
request_from_mapping-lacking m =
    request_from_mapping_lem m
    ∙ ap (λ is. resolve_missing is m) (missing_fields-map m required_request_fields)

-- A refusal is not accepted, and has a fault.
abbrev pub IsRefusal : Resolved → Type 0
IsRefusal (request r) = Unit
IsRefusal (refused v) = (v.accepted ≡ false) × (has_fault v ≡ true)

resolve_built-IsRefusal : (b : Converted OperatorRequest) → IsRefusal (resolve_built b)
unfolding has_fault is_fault any
resolve_built-IsRefusal (value r) = tt
resolve_built-IsRefusal (raised message) = (refl, refl)

resolve_missing-IsRefusal :
    (names : List String) (m : Mapping) → IsRefusal (resolve_missing (map missing_issue names) m)
unfolding has_fault is_fault any
resolve_missing-IsRefusal [] m = resolve_built-IsRefusal (build_request m)
resolve_missing-IsRefusal (name ∷ names) m = (refl, refl)

-- A mapping becomes a request, or it is refused with a fault: it is never accepted half-built.
pub request_from_mapping-IsRefusal : (m : Mapping) → IsRefusal (request_from_mapping m)
request_from_mapping-IsRefusal m =
    rw request_from_mapping-lacking (resolve_missing-IsRefusal (lacking m) m)
