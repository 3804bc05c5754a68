-- ===== src/Runtime/Interrupts/Review.antt =====
-- When `validate_interrupt_context` accepts a packet, and the packets that the runtime builds.
use lang_sop.Base.{
  ◌≡◌, refl, ◌∙◌, sym, String, Bool, false, not, ◌&&◌, ◌||◌, List, [], ◌∷◌, ◌++◌, ◌==◌, arith, any,
  map, is_empty, is_empty_text, is_empty-append, is_empty-map, only_if, contains,
}
use lang_sop.Text.{has_part, lower}
use lang_sop.Text.Sets.Laws.{
  contains-sorted, contains-distinct, contains-keep, is_empty-sorted, is_empty-distinct,
  is_empty-keep,
}
use lang_sop.Runtime.State.{GraphIssue}
use lang_sop.Runtime.Interrupts.{
  InterruptContextPacket, forbidden_interrupt_context_markers, marker_hits, all_hits,
  forbidden_context_hits, forbidden_issue, interrupt_status_text, validate_interrupt_context,
}

-- A reference names live state when a marker stands in it, in any case.
abbrev pub names_live_state : String → Bool
names_live_state ref =
    any (λ marker. has_part (lower ref) marker) forbidden_interrupt_context_markers

contains-append :
    (k : String) (xs ys : List String) → contains k (xs ++ ys) ≡ (contains k xs || contains k ys)
unfolding contains
contains-append k [] ys = refl
contains-append k (x ∷ xs) ys = ground (arith, contains-append k xs ys)

contains-nil : (k : String) → contains k [] ≡ false
unfolding contains
contains-nil k = refl

and_false : (b : Bool) → (b && false) ≡ false
and_false b = ground arith

contains-all_hits :
    (k : String) (refs : List String)
    → contains k (all_hits refs)
      ≡ (contains k forbidden_interrupt_context_markers && any (λ ref. has_part (lower ref) k) refs)
unfolding all_hits marker_hits any
contains-all_hits k [] = contains-nil k ∙ sym (and_false _)
contains-all_hits k (ref ∷ refs) =
    let here =
      contains-keep (λ marker. has_part (lower ref) marker) k forbidden_interrupt_context_markers in
    let both = contains-append k (marker_hits (lower ref)) (all_hits refs) in
    ground (arith, here, both, contains-all_hits k refs)

-- The hits are the markers that stand in one of the references.
pub contains-forbidden_context_hits :
    (k : String) (refs : List String)
    → contains k (forbidden_context_hits refs)
      ≡ (contains k forbidden_interrupt_context_markers && any (λ ref. has_part (lower ref) k) refs)
unfolding forbidden_context_hits
contains-forbidden_context_hits k refs =
    contains-sorted k _ ∙ contains-distinct k _ ∙ contains-all_hits k refs

is_empty-all_hits :
    (refs : List String) → is_empty (all_hits refs) ≡ not (any names_live_state refs)
unfolding all_hits marker_hits any
is_empty-all_hits [] = refl
is_empty-all_hits (ref ∷ refs) =
    is_empty-append (marker_hits (lower ref)) (all_hits refs)
    ∙ ground (
      arith,
      is_empty-keep (λ marker. has_part (lower ref) marker) forbidden_interrupt_context_markers,
      is_empty-all_hits refs,
    )

is_empty-forbidden :
    (refs : List String) → is_empty (forbidden_context_hits refs) ≡ not (any names_live_state refs)
unfolding forbidden_context_hits
is_empty-forbidden refs = is_empty-sorted _ ∙ is_empty-distinct _ ∙ is_empty-all_hits refs

five_parts :
    (a b c e : Bool) (i j k m : GraphIssue) (is : List GraphIssue)
    → is_empty (only_if a i ++ (only_if b j ++ (only_if c k ++ (is ++ only_if e m))))
      ≡ (not a && (not b && (not c && (is_empty is && not e))))
five_parts a b c e i j k m is = ground (arith, is_empty-append is (only_if e m))

not-not : (b : Bool) → not (not b) ≡ b
not-not b = ground arith

-- A packet is accepted exactly when it names its work packet, the judgment and a route, no
-- reference in its evidence or inputs names live state, and its status claims no authority.
pub validate_interrupt_context-accepted :
    (p : InterruptContextPacket)
    → (validate_interrupt_context p).accepted ≡ (
        not (is_empty_text p.active_work_packet_ref)
        && (not (is_empty_text p.required_judgment)
            && (not (is_empty p.allowed_resume_route_set)
                && (not (any names_live_state (p.evidence_ref_set ++ p.input_record_ref_set))
                    && (p.packet_status == interrupt_status_text)))))
unfolding validate_interrupt_context
validate_interrupt_context-accepted p =
    five_parts (is_empty_text p.active_work_packet_ref) (is_empty_text p.required_judgment)
      (is_empty p.allowed_resume_route_set) (not (p.packet_status == interrupt_status_text)) _ _ _ _
      (map forbidden_issue (forbidden_context_hits (p.evidence_ref_set ++ p.input_record_ref_set)))
    ∙ rw
        (
          is_empty-map forbidden_issue
              (forbidden_context_hits (p.evidence_ref_set ++ p.input_record_ref_set)),
          is_empty-forbidden (p.evidence_ref_set ++ p.input_record_ref_set),
          not-not (p.packet_status == interrupt_status_text),
        )
        refl
