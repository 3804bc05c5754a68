-- ===== src/Records.antt =====
-- What the components share of dataclasses, enumerations and dictionaries.
use lang_sop.Base.{
  ◌≡◌, refl, String, ◌<>◌, ◌==◌, Bool, false, not, Option, none, some, List, [], ◌∷◌, ◌++◌, all,
  only_if, is_empty, is_empty_text, if◌then◌else◌, arith,
}
use lang_sop.Operators.Values.{Converted, value, raised, text_repr}

-- `Enumeration(text)`: the member with the value, or a `ValueError`.
unfoldable pub member {ℓ} : {A : Type ℓ} → (A → String) → String → List A → String → Converted A
unfolding text_repr
member value_of name [] s = raised (text_repr s <> (" is not a valid " <> name))
member value_of name (m ∷ ms) s =
    let rest = member value_of name ms s in if value_of m == s then value m else rest

-- A dictionary, in the order of insertion: `d.get(key)` and `d[key] = value`.
abbrev pub Dict : Type 0
Dict = List (String × String)

unfoldable pub find_text : String → Dict → Option String
find_text key [] = none
find_text key ((k, v) ∷ fields) = if k == key then some v else find_text key fields

unfoldable pub get_text : Dict → String → String → String
unfolding find_text
get_text fields key default = elim (find_text key fields) [ none ↦ default | some v ↦ v ]

unfoldable pub put : String → String → Dict → Dict
put key v [] = (key, v) ∷ []
put key v ((k, w) ∷ fields) =
    let rest = put key v fields in if k == key then (k, v) ∷ fields else (k, w) ∷ rest

-- `not _field_has_value(record, name)`, where the texts of the record are given by name. Every other
-- required attribute is a tuple, a Boolean or a member of an enumeration, and has a value.
unfoldable pub lacks_text : Dict → String → Bool
lacks_text [] name = false
lacks_text ((k, v) ∷ fields) name = if k == name then is_empty_text v else lacks_text fields name

unfoldable pub missing_names : Dict → List String → List String
unfolding lacks_text
missing_names fields [] = []
missing_names fields (name ∷ names) =
    only_if (lacks_text fields name) name ++ missing_names fields names

-- Where a tuple counts as a value only if it is not empty, the fields are given with whether they
-- have a value.
abbrev pub Presence : Type 0
Presence = List (String × Bool)

unfoldable pub lacks_field : Presence → String → Bool
lacks_field [] name = false
lacks_field ((k, b) ∷ fields) name = if k == name then not b else lacks_field fields name

unfoldable pub absent_names : Presence → List String → List String
unfolding lacks_field
absent_names fields [] = []
absent_names fields (name ∷ names) =
    only_if (lacks_field fields name) name ++ absent_names fields names

pub is_empty-absent_names :
    (fields : Presence) (names : List String)
    → is_empty (absent_names fields names) ≡ all (λ name. not (lacks_field fields name)) names
unfolding absent_names all
is_empty-absent_names fields [] = refl
is_empty-absent_names fields (name ∷ names) = ground (arith, is_empty-absent_names fields names)

pub is_empty-missing_names :
    (fields : Dict) (names : List String)
    → is_empty (missing_names fields names) ≡ all (λ name. not (lacks_text fields name)) names
unfolding missing_names all
is_empty-missing_names fields [] = refl
is_empty-missing_names fields (name ∷ names) = ground (arith, is_empty-missing_names fields names)
