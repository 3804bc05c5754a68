-- ===== src/Manager/Authority/Promotion.antt =====
-- Which records may be promoted to source authority.
use lang_sop.Base.{
  ◌≡◌, refl, ◌∙◌, sym, ◌↔◌, String, Bool, true, false, not, ◌&&◌, ◌||◌, ◌==◌, contains,
  is_empty_text, is_empty-append, is_empty-only_if, both, false_of_not, arith, if◌then◌else◌,
}
use lang_sop.Manager.Vocabulary.{ManagerAuthorityClass}
use lang_sop.Manager.Authority.{
  in_promotable_to_source_authority_set, source_record_kind_set, classify_manager_record_authority,
  validate_manager_authority_classification, accepted,
}

-- A named record that authorizes nothing, and that is promoted to source authority only if its kind is
-- that of a source.
pub record IsConfined (record_ref record_kind requested_promotion : String)
    (promoted dispatch live : Bool) : Type 0 where
  pub named : is_empty_text record_ref ≡ false
  pub source :
      ((requested_promotion == "source_authority") || promoted) ≡ true
      → contains record_kind source_record_kind_set ≡ true
  pub no_dispatch : dispatch ≡ false
  pub no_live_effect : live ≡ false

promotable-if :
    (b : Bool) (c d : ManagerAuthorityClass)
    → in_promotable_to_source_authority_set (if b then c else d) ≡ (
        if b
        then in_promotable_to_source_authority_set c
        else in_promotable_to_source_authority_set d)
promotable-if true c d = refl
promotable-if false c d = refl

if_false : (b : Bool) → (if b then false else false) ≡ false
if_false true = refl
if_false false = refl

if_itself : (b : Bool) → (if b then true else false) ≡ b
if_itself true = refl
if_itself false = refl

promotable_lem :
    (kind requested : String)
    → in_promotable_to_source_authority_set (classify_manager_record_authority kind requested)
      ≡ contains kind source_record_kind_set
unfolding classify_manager_record_authority
promotable_lem kind requested = simp (promotable-if, if_false, if_itself)

accepted-tests :
    (r k q : String) (p d l : Bool)
    → accepted (validate_manager_authority_classification r k q p d l) ≡ (
        not (is_empty_text r)
        && (not ((q == "source_authority") && not (contains k source_record_kind_set))
            && (not (p && not (contains k source_record_kind_set)) && (not d && not l))))
unfolding accepted validate_manager_authority_classification
accepted-tests r k q p d l = simp (is_empty-append, is_empty-only_if, promotable_lem)

source_lem :
    (q p s : Bool) → not (q && not s) ≡ true → not (p && not s) ≡ true → (q || p) ≡ true → s ≡ true
source_lem q p s h i j = ground arith

source_tests_lem :
    (q p s : Bool)
    → ((q || p) ≡ true → s ≡ true)
    → (not (q && not s) ≡ true) × (not (p && not s) ≡ true)
source_tests_lem true p s f = rw (f refl) (refl, ground arith)
source_tests_lem false true s f = rw (f refl) (refl, refl)
source_tests_lem false false s f = (refl, refl)

-- The classification of a record is accepted exactly when the record is named, authorizes no dispatch
-- and performs no live effect, and is of a source kind wherever its promotion to source authority is
-- requested or claimed.
pub validate_manager_authority-IsConfined :
    (r k q : String) (p d l : Bool)
    → (accepted (validate_manager_authority_classification r k q p d l) ≡ true)
      ↔ IsConfined r k q p d l
validate_manager_authority-IsConfined r k q p d l = (
  λ h.
      let (named, t) = both (sym (accepted-tests r k q p d l) ∙ h) in
      let (requested, t) = both t in
      let (promoted, t) = both t in
      let (dispatch, live) = both t in
      record {
        named = false_of_not named;
        source =
            source_lem (q == "source_authority") p (contains k source_record_kind_set) requested
              promoted;
        no_dispatch = false_of_not dispatch;
        no_live_effect = false_of_not live;
      },
  λ c.
      let (requested, promoted) =
        source_tests_lem (q == "source_authority") p (contains k source_record_kind_set) c.source in
      accepted-tests r k q p d l
      ∙ rw (c.named, requested, promoted, c.no_dispatch, c.no_live_effect) refl,
)
