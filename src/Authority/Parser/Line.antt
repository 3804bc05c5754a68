-- ===== src/Authority/Parser/Line.antt =====
-- The records of src/langsop/authority/sop_parser.py, and the parse of one line.
use lang_sop.Base.{
  ℕ, String, ◌<>◌, ◌==◌, not, Option, none, some, List, [], ◌∷◌, all, if◌then◌else◌,
}
use Prim.Native.Char.{Char}
use lang_sop.Text.{
  starts_with, slice_from, lstrip, strip, cut_at, split, Identifiers, is_identifier,
}
use lang_sop.Text.Decimal.{decimal}

abbrev pub marker_kind_by_text : List (String × String)
marker_kind_by_text =
    ("&", "local_term")
    ∷ ("+", "directive")
    ∷ ("=", "constraint")
    ∷ ("-", "constraint")
    ∷ ("^", "function_declaration")
    ∷ ("?", "condition")
    ∷ ("@", "anchor")
    ∷ ("!", "claim")
    ∷ ("~", "assumption")
    ∷ ("|", "enum_declaration")
    ∷ ("/", "pants_decomposition")
    ∷ ("*", "pants_composition")
    ∷ ("#", "comment")
    ∷ []

-- `MARKER_KIND_BY_TEXT.get(marker_text)`
unfoldable pub find_kind : String → List (String × String) → Option String
find_kind marker [] = none
find_kind marker ((text, kind) ∷ rest) = if text == marker then some kind else find_kind marker rest

pub record ParseFault : Type 0 where
  pub fault_id : String
  pub source_path : String
  pub source_hash : String
  pub line_number : ℕ
  pub raw_text : String
  pub fault_kind : String
  pub fault_severity : String
  pub recovery_action : String
  pub downstream_effect : String

pub record ParseEvent : Type 0 where
  pub source_path : String
  pub source_hash : String
  pub line_number : ℕ
  pub raw_text : String
  pub indentation_column : ℕ
  pub marker_text : String
  pub marker_kind : String
  pub bracket_label : String
  pub tail_text : String
  pub parent_line_ref : Option ℕ
  pub active_range_ref : Option ℕ
  pub parse_status : String
  pub parse_fault_ref_set : List String

pub record ParsedSopDocument : Type 0 where
  pub source_path : String
  pub source_hash : String
  pub events : List ParseEvent
  pub faults : List ParseFault

-- The keyword arguments that the functions on one line share.
pub record LinePlace : Type 0 where
  pub source_path : String
  pub source_hash : String
  pub line_number : ℕ
  pub raw_text : String

-- The five values that `_parse_line` returns.
pub record ParsedLine : Type 0 where
  pub marker_text : String
  pub marker_kind : String
  pub bracket_label : String
  pub tail_text : String
  pub faults : List ParseFault

abbrev fault_at : LinePlace → String → String → String → ParseFault
fault_at w kind action effect = record {
  fault_id = w.source_path <> (":" <> (decimal w.line_number <> (":" <> kind)));
  source_path = w.source_path;
  source_hash = w.source_hash;
  line_number = w.line_number;
  raw_text = w.raw_text;
  fault_kind = kind;
  fault_severity = "recoverable";
  recovery_action = action;
  downstream_effect = effect;
}

abbrev label_fault : LinePlace → ParseFault
label_fault w =
    fault_at w "bracket_label_parse_failure" "preserve_tail_text_without_label"
      "block_identity_resolution_for_affected_line"

abbrev marker_fault : LinePlace → ParseFault
marker_fault w =
    fault_at w "unknown_marker" "preserve_line_as_unknown_event"
      "block_authority_classification_for_affected_line"

-- The label, the tail and the fault of the text after a bracket that was opened.
abbrev label_from :
    LinePlace → String → Option (String × String) → String × String × List ParseFault
label_from w source none = ("", source, label_fault w ∷ [])
label_from w source (some (label, tail)) = (label, strip tail, [])

unfoldable pub split_bracket_label : LinePlace → String → String × String × List ParseFault
unfolding starts_with cut_at slice_from strip decimal
split_bracket_label w source =
    if not (starts_with source "[")
    then ("", source, [])
    else label_from w source (cut_at b']' (slice_from 1 source))

unfoldable pub parse_marker : LinePlace → Char → String → ParsedLine
unfolding find_kind split_bracket_label lstrip
parse_marker w c rest =
    let marker = String.◌∷◌ c String.[] in
    elim (find_kind marker marker_kind_by_text) [
      | none ↦ record {
        marker_text = "";
        marker_kind = "unknown";
        bracket_label = "";
        tail_text = String.◌∷◌ c rest;
        faults = marker_fault w ∷ [];
      }
      | some kind ↦
          let (label, tail, faults) = split_bracket_label w (lstrip rest) in
          record {
            marker_text = marker;
            marker_kind = kind;
            bracket_label = label;
            tail_text = tail;
            faults = faults;
          }
    ]

abbrev without_label : String → String → String → ParsedLine
without_label marker kind tail = record {
  marker_text = marker;
  marker_kind = kind;
  bracket_label = "";
  tail_text = tail;
  faults = [];
}

module _ (u : Identifiers) where
  abbrev key_and_value : Option (String × String) → Option (String × String)
  key_and_value none = none
  key_and_value (some (key, value)) =
      if all (is_identifier u) (split key) then some (key, value) else none

  unfoldable pub parse_line : LinePlace → String → ParsedLine
  unfolding starts_with slice_from strip cut_at split all is_identifier parse_marker
  parse_line w String.[] = without_label "" "blank" ""
  parse_line w (String.◌∷◌ c rest) =
      let stripped = String.◌∷◌ c rest in
      if starts_with stripped "Subject:"
      then without_label "Subject:" "subject_declaration" (strip (slice_from 8 stripped))
      else if starts_with stripped "Date:"
      then without_label "Date:" "directive" (strip (slice_from 5 stripped))
      else elim (key_and_value (cut_at b':' stripped)) [
        | some (key, value) ↦ without_label (key <> ":") "directive" (strip value)
        | none ↦ parse_marker w c rest
      ]
