-- ===== src/Tests/Parsing.antt =====
-- The theorems of the parser at a text with labels, a comment and two faults.
use lang_sop.Base.{◌≡◌, refl, String, true, false, none, some, [], ◌∷◌, map, All}
use lang_sop.Text.{Identifiers, splitlines, slice_from}
use lang_sop.Authority.Parser.{indentation_column, parse_sop_text}
use lang_sop.Authority.Parser.Events.{
  numbers_from, refs_of, parse_sop_text-lines, parse_sop_text-faults,
}
use lang_sop.Authority.Parser.Nesting.{has_parent_in, parse_sop_text-nested}

abbrev pub ascii_only : Identifiers
ascii_only = record { xid_start = λ n. false; xid_continue = λ n. false }

abbrev pub no_hash : String → String
no_hash text = "0"

abbrev pub sample_text : String
sample_text = "Subject: Plan\n& [a] first\n  + second\n    # note\n    ? [open\n%% unknown"

parents_of_sample :
    map (λ e. e.parent_line_ref) (parse_sop_text ascii_only no_hash "p" none sample_text).events
    ≡ none ∷ none ∷ some 2 ∷ some 3 ∷ some 3 ∷ none ∷ []
unfolding parse_sop_text
parents_of_sample = refl

faults_of_sample :
    map (λ f. f.fault_id) (parse_sop_text ascii_only no_hash "p" none sample_text).faults
    ≡ "p:5:bracket_label_parse_failure" ∷ "p:6:unknown_marker" ∷ []
unfolding parse_sop_text
faults_of_sample = refl

-- A tab counts four columns, and the slice takes the column for an index: the text is lost.
tab_loses_text : slice_from (indentation_column "\t& a") "\t& a" ≡ ""
unfolding slice_from indentation_column
tab_loses_text = refl

parse_sop_text-lines_example :
    (map (λ e. e.raw_text) (parse_sop_text ascii_only no_hash "p" none sample_text).events
      ≡ splitlines sample_text)
    × (map (λ e. e.line_number) (parse_sop_text ascii_only no_hash "p" none sample_text).events
        ≡ numbers_from 1 (splitlines sample_text))
parse_sop_text-lines_example = parse_sop_text-lines ascii_only no_hash "p" none sample_text

parse_sop_text-faults_example :
    map (λ f. f.fault_id) (parse_sop_text ascii_only no_hash "p" none sample_text).faults
    ≡ refs_of (parse_sop_text ascii_only no_hash "p" none sample_text).events
parse_sop_text-faults_example = parse_sop_text-faults ascii_only no_hash "p" none sample_text

parse_sop_text-nested_example :
    All
      (λ e. has_parent_in (parse_sop_text ascii_only no_hash "p" none sample_text).events e ≡ true)
      (parse_sop_text ascii_only no_hash "p" none sample_text).events
parse_sop_text-nested_example = parse_sop_text-nested ascii_only no_hash "p" none sample_text
