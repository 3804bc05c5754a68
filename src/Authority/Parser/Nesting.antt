-- ===== src/Authority/Parser/Nesting.antt =====
-- The parent of an event: an earlier line, less indented, which is neither blank nor a comment.
use mathlib.Core.List.{append_assoc}
use mathlib.Core.Path.{subst}
use lang_sop.Base.{
  ◌≡◌, refl, ◌∙◌, ap, ℕ, suc, ◌<◌, ltb, leb, nat_beq, String, Bool, true, false, not, ◌&&◌, ◌||◌,
  Option, none, some, List, [], ◌∷◌, ◌++◌, any, any-append, All, arith, Bool-cases, Option-cases,
  inl, inr,
}
use lang_sop.Text.{Identifiers, splitlines}
use lang_sop.Authority.Parser.{
  ParseEvent, parse_lines, parse_sop_text, Parents, pop_parents, push_parent, top_line, event_of,
  indentation_column, place, is_passed_over, or_text_hash,
}
use lang_sop.Authority.Parser.Events.{events_from, parsed, after}

-- Every line on the stack stands before a given one, and so does a line that was pushed.
abbrev Before : ℕ → Parents → Type 0
Before n stack = All (λ p. p.0 < n) stack

Before-suc : (n : ℕ) (stack : Parents) → Before n stack → Before (suc n) stack
Before-suc n [] h = tt
Before-suc n ((l, c) ∷ stack) h = (omega (arith, h.0), Before-suc n stack h.1)

pop_parents-Before :
    (n column : ℕ) (stack : Parents) → Before n stack → Before n (pop_parents column stack)
unfolding pop_parents
pop_parents-Before n column [] h = tt
pop_parents-Before n column ((l, c) ∷ stack) h = elim (Bool-cases (leb column c)) [
  | inl e ↦ rw e (pop_parents-Before n column stack h.1)
  | inr e ↦ rw e h
]

push_parent-Before :
    (kind : String) (n column : ℕ) (stack : Parents)
    → Before n stack
    → Before (suc n) (push_parent kind n column stack)
unfolding push_parent
push_parent-Before kind n column stack h = elim (Bool-cases (is_passed_over kind)) [
  | inl e ↦ rw e (Before-suc n stack h)
  | inr e ↦ rw e (omega arith, Before-suc n stack h)
]

-- The columns of a stack after a pop are smaller than the column.
abbrev Inside : ℕ → Parents → Type 0
Inside column [] = Unit
Inside column ((l, c) ∷ stack) = c < column

pop_parents-Inside : (column : ℕ) (stack : Parents) → Inside column (pop_parents column stack)
unfolding pop_parents
pop_parents-Inside column [] = tt
pop_parents-Inside column ((l, c) ∷ stack) = elim (Bool-cases (leb column c)) [
  | inl e ↦ rw e (pop_parents-Inside column stack)
  | inr e ↦ rw e (ground (arith, e))
]

-- An event that may be on the stack as an entry, and one that may be the parent of another.
abbrev stands_for : ℕ × ℕ → ParseEvent → Bool
stands_for p d =
    nat_beq d.line_number p.0
    && (nat_beq d.indentation_column p.1 && not (is_passed_over d.marker_kind))

abbrev pub encloses : ℕ → ParseEvent → ParseEvent → Bool
encloses line e d =
    nat_beq d.line_number line
    && (ltb d.line_number e.line_number
        && (ltb d.indentation_column e.indentation_column && not (is_passed_over d.marker_kind)))

-- An event names no parent, or an event of the list that encloses it.
abbrev pub has_parent_in : List ParseEvent → ParseEvent → Bool
has_parent_in events e = elim e.parent_line_ref [
  | none ↦ true
  | some line ↦ any (encloses line e) events
]

any_mono :
    (p q : ParseEvent → Bool) (es : List ParseEvent)
    → ((e : ParseEvent) → p e ≡ true → q e ≡ true)
    → any p es ≡ true
    → any q es ≡ true
unfolding any
any_mono p q [] h k = k
any_mono p q (e ∷ es) h k = elim (Bool-cases (p e)) [
  | inl t ↦ rw (h e t) refl
  | inr t ↦ ground (arith, any_mono p q es h (ground arith))
]

encloses_of_stands_for :
    (line column : ℕ) (e d : ParseEvent)
    → line < e.line_number
    → column < e.indentation_column
    → stands_for (line, column) d ≡ true
    → encloses line e d ≡ true
encloses_of_stands_for line column e d h k t = ground arith

-- Every entry of the stack stands for one of the events.
abbrev Known : List ParseEvent → Parents → Type 0
Known done stack = All (λ p. any (stands_for p) done ≡ true) stack

Known-append :
    (done more : List ParseEvent) (stack : Parents) → Known done stack → Known (done ++ more) stack
Known-append done more [] h = tt
Known-append done more (p ∷ stack) h =
    (ground (arith, any-append (stands_for p) done more, h.0), Known-append done more stack h.1)

pop_parents-Known :
    (done : List ParseEvent) (column : ℕ) (stack : Parents)
    → Known done stack
    → Known done (pop_parents column stack)
unfolding pop_parents
pop_parents-Known done column [] h = tt
pop_parents-Known done column ((l, c) ∷ stack) h = elim (Bool-cases (leb column c)) [
  | inl e ↦ rw e (pop_parents-Known done column stack h.1)
  | inr e ↦ rw e h
]

has_parent_in-append :
    (done more : List ParseEvent) (e : ParseEvent)
    → has_parent_in done e ≡ true
    → has_parent_in (done ++ more) e ≡ true
has_parent_in-append done more e h = elim (Option-cases e.parent_line_ref) [
  | inl t ↦ rw t refl
  | inr (line, t) ↦ rw t (
      any-append (encloses line e) done more
      ∙ ap (λ b. b || any (encloses line e) more) (rw t at h))
]

top_line-has_parent :
    (done : List ParseEvent) (stack : Parents) (e : ParseEvent)
    → e.parent_line_ref ≡ top_line stack
    → Known done stack
    → Before e.line_number stack
    → Inside e.indentation_column stack
    → has_parent_in done e ≡ true
unfolding top_line
top_line-has_parent done [] e t known before inside = rw t refl
top_line-has_parent done ((l, c) ∷ stack) e t known before inside = rw t (
    any_mono (stands_for (l, c)) (encloses l e) done
      (λ d. encloses_of_stands_for l c e d before.0 inside) known.0)

stands_for_self :
    (e : ParseEvent) (n column : ℕ)
    → e.line_number ≡ n
    → e.indentation_column ≡ column
    → is_passed_over e.marker_kind ≡ false
    → stands_for (n, column) e ≡ true
stands_for_self e n column h k t = ground arith

push_parent-Known :
    (done : List ParseEvent) (e : ParseEvent) (n column : ℕ) (stack : Parents)
    → e.line_number ≡ n
    → e.indentation_column ≡ column
    → Known done stack
    → Known (done ++ e ∷ []) (push_parent e.marker_kind n column stack)
unfolding push_parent any
push_parent-Known done e n column stack h k known =
    elim (Bool-cases (is_passed_over e.marker_kind)) [
      | inl t ↦ rw t (Known-append done (e ∷ []) stack known)
      | inr t ↦ rw t (
        any-append (stands_for (n, column)) done (e ∷ [])
            ∙ ground (arith, stands_for_self e n column h k t),
        Known-append done (e ∷ []) stack known,
      )
    ]

module _ (u : Identifiers) (path hash : String) where
  abbrev AllNested : List ParseEvent → List ParseEvent → Type 0
  AllNested events es = All (λ e. has_parent_in events e ≡ true) es

  nested_from :
      (n : ℕ) (stack : Parents) (done : List ParseEvent) (lines : List String)
      → Before n stack
      → Known done stack
      → AllNested
          (done ++ events_from u path hash n stack lines)
          (events_from u path hash n stack lines)
  unfolding parse_lines event_of
  nested_from n stack done [] before known = tt
  nested_from n stack done (raw ∷ lines) before known =
      let column = indentation_column raw in
      let left = pop_parents column stack in
      let e = event_of (place path hash n raw) (parsed u path hash n raw) column (top_line left) in
      let rest = events_from u path hash (suc n) (after u path hash n stack raw) lines in
      let earlier = pop_parents-Before n column stack before in
      let kept = pop_parents-Known done column stack known in
      (
        has_parent_in-append done (e ∷ rest) e
            (top_line-has_parent done left e refl kept earlier (pop_parents-Inside column stack)),
        subst (λ es. AllNested es rest) (append_assoc done (e ∷ []) rest)
            (nested_from (suc n) (after u path hash n stack raw) (done ++ e ∷ []) lines
              (push_parent-Before (parsed u path hash n raw).marker_kind n column left earlier)
              (push_parent-Known done e n column left refl refl kept)),
      )

-- Every event of a parsed text names no parent, or the line of an event of the text that stands
-- before it, is less indented, and is neither blank nor a comment.
pub parse_sop_text-nested :
    (u : Identifiers) (text_hash : String → String) (path : String) (given : Option String)
    (text : String)
    → All
        (λ e. has_parent_in (parse_sop_text u text_hash path given text).events e ≡ true)
        (parse_sop_text u text_hash path given text).events
unfolding parse_sop_text
parse_sop_text-nested u text_hash path given text =
    nested_from u path (or_text_hash u text_hash given text) 1 [] [] (splitlines text) tt tt
