-- ===== src/Operators/Values.antt =====
-- The values of a mapping, by what the operators read of them: their class, `str`, `repr`, and the
-- `str` of each item of a sequence. `repr` of a text is that of printable text and ASCII.
use Prim.Native.Char.{code}
use Prim.Native.String.{char_at}
use lang_sop.Base.{
  ℕ, ◌/◌, ◌%◌, String, ◌<>◌, Bool, true, false, not, ◌&&◌, ◌||◌, Option, none, some, List, [], ◌∷◌,
  ◌==◌, ltb, nat_beq, if◌then◌else◌,
}
use lang_sop.Text.{has_part, lower, strip}

pub data Object : Type 0 where
  none_value : Object
  boolean : Bool → Object
  text : String → Object
  -- a list, tuple or other sequence: its `str`, which is its `repr`, and the `str` of its items
  sequence : String → List String → Object
  -- any other class: its name, and the value's `str` and `repr`
  other : String → String → String → Object

abbrev pub Mapping : Type 0
Mapping = List (String × Object)

-- `mapping.get(key)`, as an option
unfoldable pub get : Mapping → String → Option Object
get [] key = none
get ((k, v) ∷ m) key = if k == key then some v else get m key

-- `str(value)`
unfoldable pub to_str : Object → String
to_str none_value = "None"
to_str (boolean true) = "True"
to_str (boolean false) = "False"
to_str (text s) = s
to_str (sequence shown items) = shown
to_str (other name shown represented) = shown

abbrev hex_digit : ℕ → String
hex_digit n = String.◌∷◌ (char_at "0123456789abcdef" n) String.[]

escape : String → String → String
escape quote String.[] = ""
escape quote (String.◌∷◌ c s) =
    let rest = escape quote s in
    let here = String.◌∷◌ c String.[] in
    if (here == quote) || (here == "\\")
    then "\\" <> (here <> rest)
    else if nat_beq (code c) 10
    then "\\n" <> rest
    else if nat_beq (code c) 13
    then "\\r" <> rest
    else if nat_beq (code c) 9
    then "\\t" <> rest
    else if ltb (code c) 32 || nat_beq (code c) 127
    then "\\x" <> (hex_digit (code c / 16) <> (hex_digit (code c % 16) <> rest))
    else here <> rest

abbrev quoted : String → String → String
quoted quote s = quote <> (escape quote s <> quote)

-- `repr(s)` of a text
unfoldable pub text_repr : String → String
unfolding has_part escape
text_repr s = if has_part s "'" && not (has_part s "\"") then quoted "\"" s else quoted "'" s

unfoldable pub to_repr : Object → String
unfolding text_repr
to_repr none_value = "None"
to_repr (boolean true) = "True"
to_repr (boolean false) = "False"
to_repr (text s) = text_repr s
to_repr (sequence shown items) = shown
to_repr (other name shown represented) = represented

-- A conversion that may raise `TypeError` or `ValueError`, with the exception's text.
pub data Converted {ℓ} (A : Type ℓ) : Type ℓ where
  value : A → Converted A
  raised : String → Converted A

infixl 5 ◌>>=◌
abbrev pub ◌>>=◌ {ℓ κ} : {A : Type ℓ} {B : Type κ} → Converted A → (A → Converted B) → Converted B
value a >>= f = f a
raised message >>= f = raised message

-- `_as_string_sequence`
unfoldable pub as_string_sequence : Object → Converted (List String)
as_string_sequence none_value = value []
as_string_sequence (text s) = value (s ∷ [])
as_string_sequence (sequence shown items) = value items
as_string_sequence (boolean b) = raised "expected sequence of strings, got bool"
as_string_sequence (other name shown represented) =
    raised ("expected sequence of strings, got " <> name)

abbrev text_as_bool : String → String → Converted Bool
text_as_bool lowered s =
    if (lowered == "true") || (lowered == "yes") || (lowered == "1")
    then value true
    else if (lowered == "false") || (lowered == "no") || (lowered == "0")
    then value false
    else raised ("expected boolean value, got " <> text_repr s)

-- `_as_bool`
unfoldable pub as_bool : Object → Converted Bool
unfolding to_repr lower strip
as_bool (boolean b) = value b
as_bool (text s) = text_as_bool (lower (strip s)) s
as_bool v = raised ("expected boolean value, got " <> to_repr v)

abbrev non_empty : String → Option String
non_empty String.[] = none
non_empty (String.◌∷◌ c s) = some (String.◌∷◌ c s)

-- `_optional_str`
unfoldable pub optional_str : Option Object → Option String
unfolding to_str
optional_str none = none
optional_str (some none_value) = none
optional_str (some v) = non_empty (to_str v)

-- `_string_tuple` of runner.py
unfoldable pub string_tuple : Object → List String
unfolding to_str
string_tuple none_value = []
string_tuple (text s) = s ∷ []
string_tuple (sequence shown items) = items
string_tuple v = to_str v ∷ []
