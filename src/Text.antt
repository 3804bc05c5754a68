-- ===== src/Text.antt =====
-- Python's operations on `str` that the program calls. A text is walked by code points.
pub mod Affixes
pub mod Sets
pub mod Decimal
use Prim.Native.Char.{Char, code}
use Prim.Native.String.{char_at}
use lang_sop.Base.{
  ℕ, zero, suc, ◌-◌, String, Bool, true, false, not, ◌&&◌, ◌||◌, Option, none, some, List, [], ◌∷◌,
  ltb, leb, nat_beq, if◌then◌else◌, is_empty_text,
}

-- `s.startswith(t)`
unfoldable pub starts_with : String → String → Bool
starts_with s String.[] = true
starts_with String.[] (String.◌∷◌ d t) = false
starts_with (String.◌∷◌ c s) (String.◌∷◌ d t) = nat_beq (code c) (code d) && starts_with s t

-- `t in s`
unfoldable pub has_part : String → String → Bool
unfolding starts_with
has_part String.[] t = is_empty_text t
has_part (String.◌∷◌ c s) t = starts_with (String.◌∷◌ c s) t || has_part s t

-- `s[n:]`
unfoldable pub slice_from : ℕ → String → String
slice_from zero s = s
slice_from (suc n) String.[] = String.[]
slice_from (suc n) (String.◌∷◌ c s) = slice_from n s

-- `s[:n]`
unfoldable pub slice_to : ℕ → String → String
slice_to zero s = String.[]
slice_to (suc n) String.[] = String.[]
slice_to (suc n) (String.◌∷◌ c s) = String.◌∷◌ c (slice_to n s)

-- The Kelvin sign is the only letter above ASCII whose lower case is one ASCII letter.
lower_char : Char → Char
lower_char c =
    if leb b'A' (code c) && leb (code c) b'Z'
    then char_at "abcdefghijklmnopqrstuvwxyz" (code c - b'A')
    else if nat_beq (code c) 0x212a
    then char_at "k" 0
    else c

-- The dot that is left of the capital I with a dot above, whose lower case is two code points.
dot_above : Char
dot_above = char_at "̇" 0

-- `s.lower()`, where a letter above ASCII whose lower case has no ASCII letter is kept as it is.
unfoldable pub lower : String → String
unfolding lower_char dot_above
lower String.[] = String.[]
lower (String.◌∷◌ c s) =
    let rest = lower s in
    if nat_beq (code c) 0x130
    then String.◌∷◌ (char_at "i" 0) (String.◌∷◌ dot_above rest)
    else String.◌∷◌ (lower_char c) rest

-- `c.isspace()`, for every code point
unfoldable pub is_space : ℕ → Bool
is_space n =
    leb 9 n && leb n 13
    || leb 28 n && leb n 32
    || nat_beq n 0x85
    || nat_beq n 0xa0
    || nat_beq n 0x1680
    || leb 0x2000 n && leb n 0x200a
    || leb 0x2028 n && leb n 0x2029
    || nat_beq n 0x202f
    || nat_beq n 0x205f
    || nat_beq n 0x3000

unfoldable pub lstrip : String → String
unfolding is_space
lstrip String.[] = String.[]
lstrip (String.◌∷◌ c s) = if is_space (code c) then lstrip s else String.◌∷◌ c s

unfoldable pub rstrip : String → String
unfolding is_space
rstrip String.[] = String.[]
rstrip (String.◌∷◌ c s) =
    let rest = rstrip s in
    if is_empty_text rest && is_space (code c) then String.[] else String.◌∷◌ c rest

-- `s.strip()`
unfoldable pub strip : String → String
unfolding lstrip rstrip
strip s = rstrip (lstrip s)

abbrev put_before : Char → Option (String × String) → Option (String × String)
put_before c none = none
put_before c (some (before, after)) = some (String.◌∷◌ c before, after)

-- The text before the first `n`, and the text after it: `s.find(c)` with the two slices round it,
-- and `s.partition(c)`.
unfoldable pub cut_at : ℕ → String → Option (String × String)
cut_at n String.[] = none
cut_at n (String.◌∷◌ c s) =
    let rest = cut_at n s in if nat_beq (code c) n then some (String.[], s) else put_before c rest

abbrev head_onto : Char → List String → List String
head_onto c [] = String.◌∷◌ c String.[] ∷ []
head_onto c (w ∷ ws) = String.◌∷◌ c w ∷ ws

abbrev opens_word : String → Bool
opens_word String.[] = false
opens_word (String.◌∷◌ c s) = not (is_space (code c))

-- `s.split()`
unfoldable pub split : String → List String
unfolding is_space
split String.[] = []
split (String.◌∷◌ c s) =
    let rest = split s in
    if is_space (code c)
    then rest
    else if opens_word s
    then head_onto c rest
    else String.◌∷◌ c String.[] ∷ rest

is_line_break : ℕ → Bool
is_line_break n =
    leb 10 n && leb n 13 || leb 28 n && leb n 30 || nat_beq n 0x85 || leb 0x2028 n && leb n 0x2029

-- The lines of a text, after a carriage return or not: `\r\n` is one break.
split_lines : Bool → String → List String
unfolding is_line_break
split_lines after_cr String.[] = []
split_lines after_cr (String.◌∷◌ c s) =
    let rest = split_lines (nat_beq (code c) 13) s in
    if after_cr && nat_beq (code c) 10
    then rest
    else if is_line_break (code c)
    then String.[] ∷ rest
    else head_onto c rest

-- `s.splitlines()`
unfoldable pub splitlines : String → List String
unfolding split_lines
splitlines s = split_lines false s

-- Python's tables of the code points above ASCII that may stand in an identifier.
pub record Identifiers : Type 0 where
  pub xid_start : ℕ → Bool
  pub xid_continue : ℕ → Bool

module _ (u : Identifiers) where
  is_start : ℕ → Bool
  is_start n =
      if ltb n 128
      then leb b'A' n && leb n b'Z' || leb b'a' n && leb n b'z' || nat_beq n b'_'
      else u.xid_start n

  is_continue : ℕ → Bool
  unfolding is_start
  is_continue n = if ltb n 128 then is_start n || leb b'0' n && leb n b'9' else u.xid_continue n

  all_continue : String → Bool
  unfolding is_continue
  all_continue String.[] = true
  all_continue (String.◌∷◌ c s) = is_continue (code c) && all_continue s

  -- `s.isidentifier()`
  unfoldable pub is_identifier : String → Bool
  unfolding is_start all_continue
  is_identifier String.[] = false
  is_identifier (String.◌∷◌ c s) = is_start (code c) && all_continue s
