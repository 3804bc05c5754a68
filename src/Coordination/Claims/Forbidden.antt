-- ===== src/Coordination/Claims/Forbidden.antt =====
-- The actions that no projection may ask for.
use mathlib.Core.Bool.{not-not}
use lang_sop.Base.{
  both, ◌≡◌, refl, ◌∙◌, sym, String, Bool, true, false, ◌&&◌, ◌||◌, List, contains, is_empty,
  is_empty-append, is_empty-only_if, arith,
}
use lang_sop.Base.{◌↔◌}
use lang_sop.Text.Sets.{distinct, intersection}
use lang_sop.Text.Sets.Laws.{avoids_iff}
use lang_sop.Coordination.Claims.Vocabulary.{
  direct_source_mutation_action_set, mailbox_io_action_set, dispatch_action_set,
  live_control_action_set,
}
use lang_sop.Coordination.Claims.{forbidden_permitted_action_issues}

-- An action that no projection may ask for.
abbrev pub is_forbidden : String → Bool
is_forbidden k =
    contains k direct_source_mutation_action_set
    || (contains k mailbox_io_action_set
        || (contains k dispatch_action_set || contains k live_control_action_set))

is_empty-forbidden :
    (xs : List String)
    → is_empty (forbidden_permitted_action_issues xs) ≡ (
        is_empty (intersection (distinct xs) direct_source_mutation_action_set)
        && (is_empty (intersection (distinct xs) mailbox_io_action_set)
            && (is_empty (intersection (distinct xs) dispatch_action_set)
                && is_empty (intersection (distinct xs) live_control_action_set))))
unfolding forbidden_permitted_action_issues
is_empty-forbidden xs = simp (is_empty-append, is_empty-only_if, not-not)

forbidden_lem :
    (a b c d : Bool)
    → a ≡ false
    → b ≡ false
    → c ≡ false
    → d ≡ false
    → (a || (b || (c || d))) ≡ false
forbidden_lem a b c d h i j k = ground arith

allowed_lem :
    (a b c d : Bool)
    → (a || (b || (c || d))) ≡ false
    → (a ≡ false) × (b ≡ false) × (c ≡ false) × (d ≡ false)
allowed_lem a b c d h = ground arith

pub forbidden_iff :
    (xs : List String)
    → (is_empty (forbidden_permitted_action_issues xs) ≡ true)
      ↔ ((k : String) → contains k xs ≡ true → is_forbidden k ≡ false)
forbidden_iff xs = (
  λ h k m.
      let (direct, t) = both (sym (is_empty-forbidden xs) ∙ h) in
      let (mailbox, t) = both t in
      let (dispatch, live) = both t in
      forbidden_lem (contains k direct_source_mutation_action_set)
        (contains k mailbox_io_action_set) (contains k dispatch_action_set)
        (contains k live_control_action_set)
        ((avoids_iff xs direct_source_mutation_action_set).0 direct k m)
        ((avoids_iff xs mailbox_io_action_set).0 mailbox k m)
        ((avoids_iff xs dispatch_action_set).0 dispatch k m)
        ((avoids_iff xs live_control_action_set).0 live k m),
  λ f.
      is_empty-forbidden xs
      ∙ rw
          (
            (avoids_iff xs direct_source_mutation_action_set).1 (λ k m.
                (allowed_lem (contains k direct_source_mutation_action_set)
                  (contains k mailbox_io_action_set) (contains k dispatch_action_set)
                  (contains k live_control_action_set) (f k m)).0),
            (avoids_iff xs mailbox_io_action_set).1 (λ k m.
                (allowed_lem (contains k direct_source_mutation_action_set)
                  (contains k mailbox_io_action_set) (contains k dispatch_action_set)
                  (contains k live_control_action_set) (f k m)).1),
            (avoids_iff xs dispatch_action_set).1 (λ k m.
                (allowed_lem (contains k direct_source_mutation_action_set)
                  (contains k mailbox_io_action_set) (contains k dispatch_action_set)
                  (contains k live_control_action_set) (f k m)).2),
            (avoids_iff xs live_control_action_set).1 (λ k m.
                (allowed_lem (contains k direct_source_mutation_action_set)
                  (contains k mailbox_io_action_set) (contains k dispatch_action_set)
                  (contains k live_control_action_set) (f k m)).3),
          )
          refl,
)
