-- ===== src/Text/Affixes.antt =====
-- Python's operations on the ends of a text, and on the characters of a path.
use Prim.Native.Char.{code}
use Prim.Native.String.{char_at}
use lang_sop.Base.{
  String, ◌<>◌, Bool, true, false, Option, none, some, List, [], ◌∷◌, nat_beq, ◌==◌, is_empty_text,
  if◌then◌else◌,
}

-- The text after a prefix, where it starts with it.
abbrev after_prefix : String → String → Option String
after_prefix s String.[] = some s
after_prefix String.[] (String.◌∷◌ d t) = none
after_prefix (String.◌∷◌ c s) (String.◌∷◌ d t) =
    let rest = after_prefix s t in if nat_beq (code c) (code d) then rest else none

abbrev or_whole : Option String → String → String
or_whole none s = s
or_whole (some t) s = t

-- `s.removeprefix(t)`
unfoldable pub remove_prefix : String → String → String
remove_prefix s t = or_whole (after_prefix s t) s

-- `s.removesuffix(t)`
unfoldable pub remove_suffix : String → String → String
remove_suffix String.[] t = String.[]
remove_suffix (String.◌∷◌ c s) t =
    let rest = remove_suffix s t in
    if is_empty_text t
    then String.◌∷◌ c s
    else if String.◌∷◌ c s == t
    then String.[]
    else String.◌∷◌ c rest

-- `s.replace("\\", "/")`
unfoldable pub with_slashes : String → String
with_slashes String.[] = String.[]
with_slashes (String.◌∷◌ c s) =
    String.◌∷◌ (if nat_beq (code c) b'\\' then char_at "/" 0 else c) (with_slashes s)

has_slash : String → Bool
has_slash String.[] = false
has_slash (String.◌∷◌ c s) = if nat_beq (code c) b'/' then true else has_slash s

-- `s.rsplit("/", maxsplit=1)[-1]`
unfoldable pub after_last_slash : String → String
unfolding has_slash
after_last_slash String.[] = String.[]
after_last_slash (String.◌∷◌ c s) =
    let rest = after_last_slash s in
    if has_slash s then rest else if nat_beq (code c) b'/' then s else String.◌∷◌ c s

-- `separator.join(texts)`
unfoldable pub join_texts : String → List String → String
join_texts separator [] = ""
join_texts separator (t ∷ []) = t
join_texts separator (t ∷ u ∷ more) = t <> (separator <> join_texts separator (u ∷ more))
