-- ===== src/Authority/Parser.antt =====
-- src/langsop/authority/sop_parser.py: the lines of a SOP text become events and recoverable faults.
mod Line
pub mod Events
pub mod Nesting
unfoldable pub use Line.*
use Prim.Native.Char.{code}
use lang_sop.Base.{
  ℕ, suc, ◌+◌, leb, nat_beq, String, ◌==◌, Bool, not, ◌||◌, Option, none, some, List, [], ◌∷◌, ◌++◌,
  map, is_empty, if◌then◌else◌,
}
use lang_sop.Text.{slice_from, splitlines, Identifiers}

-- `raw_text` up to the first character that is neither a space nor a tab; a tab counts four.
unfoldable pub indentation_column : String → ℕ
indentation_column String.[] = 0
indentation_column (String.◌∷◌ c s) =
    let rest = indentation_column s in
    if nat_beq (code c) 32 then suc rest else if nat_beq (code c) 9 then 4 + rest else 0

-- The stack of line numbers and columns, its top first.
abbrev pub Parents : Type 0
Parents = List (ℕ × ℕ)

-- The stack that `_parent_for` leaves, and the line that it returns.
unfoldable pub pop_parents : ℕ → Parents → Parents
pop_parents column [] = []
pop_parents column ((line, indent) ∷ stack) =
    let rest = pop_parents column stack in
    if leb column indent then rest else (line, indent) ∷ stack

unfoldable pub top_line : Parents → Option ℕ
top_line [] = none
top_line ((line, indent) ∷ stack) = some line

abbrev is_passed_over : String → Bool
is_passed_over kind = kind == "blank" || kind == "comment"

unfoldable pub push_parent : String → ℕ → ℕ → Parents → Parents
push_parent kind line column stack =
    if not (is_passed_over kind) then (line, column) ∷ stack else stack

abbrev fault_ids : List ParseFault → List String
fault_ids faults = map (λ f. f.fault_id) faults

unfoldable pub event_of : LinePlace → ParsedLine → ℕ → Option ℕ → ParseEvent
event_of w p column parent = record {
  source_path = w.source_path;
  source_hash = w.source_hash;
  line_number = w.line_number;
  raw_text = w.raw_text;
  indentation_column = column;
  marker_text = p.marker_text;
  marker_kind = p.marker_kind;
  bracket_label = p.bracket_label;
  tail_text = p.tail_text;
  parent_line_ref = parent;
  active_range_ref = none;
  parse_status = if not (is_empty (fault_ids p.faults)) then "fault" else "ok";
  parse_fault_ref_set = fault_ids p.faults;
}

abbrev place : String → String → ℕ → String → LinePlace
place path hash n raw = record {
  source_path = path;
  source_hash = hash;
  line_number = n;
  raw_text = raw;
}

module _ (u : Identifiers) where
  -- The loop over the numbered lines, from a line number and a stack.
  unfoldable pub parse_lines :
      String → String → ℕ → Parents → List String → List ParseEvent × List ParseFault
  unfolding indentation_column slice_from parse_line pop_parents top_line push_parent event_of
  parse_lines path hash n stack [] = ([], [])
  parse_lines path hash n stack (raw ∷ lines) =
      let column = indentation_column raw in
      let w = place path hash n raw in
      let p = parse_line u w (slice_from column raw) in
      let left = pop_parents column stack in
      let (events, faults) =
        parse_lines path hash (suc n) (push_parent p.marker_kind n column left) lines in
      (event_of w p column (top_line left) ∷ events, p.faults ++ faults)

  -- The hash of the text where none is given: `sha256(...)`, as a parameter.
  abbrev or_text_hash : (String → String) → Option String → String → String
  or_text_hash text_hash none text = text_hash text
  or_text_hash text_hash (some String.[]) text = text_hash text
  or_text_hash text_hash (some (String.◌∷◌ c h)) text = String.◌∷◌ c h

  unfoldable pub parse_sop_text :
      (String → String) → String → Option String → String → ParsedSopDocument
  unfolding parse_lines splitlines
  parse_sop_text text_hash path given text =
      let hash = or_text_hash text_hash given text in
      let (events, faults) = parse_lines path hash 1 [] (splitlines text) in
      record { source_path = path; source_hash = hash; events = events; faults = faults }
