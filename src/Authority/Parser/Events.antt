-- ===== src/Authority/Parser/Events.antt =====
-- The events and faults of a parsed text: one event for each line, and the faults that they name.
use lang_sop.Base.{◌≡◌, refl, ◌∙◌, ap, ℕ, suc, String, Option, List, [], ◌∷◌, ◌++◌, map}
use lang_sop.Text.{Identifiers, splitlines, slice_from}
use lang_sop.Authority.Parser.{
  ParseEvent, ParseFault, ParsedLine, parse_line, parse_lines, parse_sop_text, Parents, pop_parents,
  push_parent, event_of, indentation_column, place, or_text_hash,
}

-- The numbers from one on, one for each line.
abbrev pub numbers_from : ℕ → List String → List ℕ
numbers_from n [] = []
numbers_from n (l ∷ ls) = n ∷ numbers_from (suc n) ls

-- The references to faults of all events, in order.
abbrev pub refs_of : List ParseEvent → List String
refs_of [] = []
refs_of (e ∷ es) = e.parse_fault_ref_set ++ refs_of es

map-append :
    (xs ys : List ParseFault)
    → map (λ f. f.fault_id) (xs ++ ys) ≡ map (λ f. f.fault_id) xs ++ map (λ f. f.fault_id) ys
map-append [] ys = refl
map-append (x ∷ xs) ys = ap (λ l. x.fault_id ∷ l) (map-append xs ys)

module _ (u : Identifiers) (path hash : String) where
  abbrev pub events_from : ℕ → Parents → List String → List ParseEvent
  events_from n stack lines = (parse_lines u path hash n stack lines).0

  abbrev faults_from : ℕ → Parents → List String → List ParseFault
  faults_from n stack lines = (parse_lines u path hash n stack lines).1

  abbrev pub parsed : ℕ → String → ParsedLine
  parsed n raw = parse_line u (place path hash n raw) (slice_from (indentation_column raw) raw)

  -- The stack after a line.
  abbrev pub after : ℕ → Parents → String → Parents
  after n stack raw =
      push_parent (parsed n raw).marker_kind n (indentation_column raw)
        (pop_parents (indentation_column raw) stack)

  raw_texts_from :
      (n : ℕ) (stack : Parents) (lines : List String)
      → map (λ e. e.raw_text) (events_from n stack lines) ≡ lines
  unfolding parse_lines event_of
  raw_texts_from n stack [] = refl
  raw_texts_from n stack (raw ∷ lines) =
      ap (λ l. raw ∷ l) (raw_texts_from (suc n) (after n stack raw) lines)

  line_numbers_from :
      (n : ℕ) (stack : Parents) (lines : List String)
      → map (λ e. e.line_number) (events_from n stack lines) ≡ numbers_from n lines
  unfolding parse_lines event_of
  line_numbers_from n stack [] = refl
  line_numbers_from n stack (raw ∷ lines) =
      ap (λ l. n ∷ l) (line_numbers_from (suc n) (after n stack raw) lines)

  refs_from :
      (n : ℕ) (stack : Parents) (lines : List String)
      → map (λ f. f.fault_id) (faults_from n stack lines) ≡ refs_of (events_from n stack lines)
  unfolding parse_lines event_of
  refs_from n stack [] = refl
  refs_from n stack (raw ∷ lines) =
      map-append (parsed n raw).faults _
      ∙ ap (λ l. map (λ f. f.fault_id) (parsed n raw).faults ++ l)
          (refs_from (suc n) (after n stack raw) lines)

module _ (u : Identifiers) (text_hash : String → String) (path : String) (given : Option String)
    (text : String) where
  -- A parsed text has one event for each line, numbered from one, and the raw texts of the events
  -- are the lines: nothing is lost.
  pub parse_sop_text-lines :
      (map (λ e. e.raw_text) (parse_sop_text u text_hash path given text).events ≡ splitlines text)
      × (map (λ e. e.line_number) (parse_sop_text u text_hash path given text).events
          ≡ numbers_from 1 (splitlines text))
  unfolding parse_sop_text
  parse_sop_text-lines =
      let hash = or_text_hash u text_hash given text in
      (
        raw_texts_from u path hash 1 [] (splitlines text),
        line_numbers_from u path hash 1 [] (splitlines text),
      )

  -- The faults of a parsed text are those that its events refer to, in the same order.
  pub parse_sop_text-faults :
      map (λ f. f.fault_id) (parse_sop_text u text_hash path given text).faults
      ≡ refs_of (parse_sop_text u text_hash path given text).events
  unfolding parse_sop_text
  parse_sop_text-faults =
      refs_from u path (or_text_hash u text_hash given text) 1 [] (splitlines text)
