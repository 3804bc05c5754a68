-- ===== src/Text/Sets/Laws.antt =====
-- Membership in sorted lists and in sets of texts.
use lang_sop.Base.{
  ◌≡◌, refl, ◌∙◌, sym, ◌↔◌, none_iff, String, Bool, true, false, not, ◌&&◌, ◌||◌, List, [], ◌∷◌,
  ◌==◌, eq_iff, arith, all, any, keep, contains, is_empty,
}
use lang_sop.Text.Sets.{insert_sorted, sorted, distinct, difference, intersection}

pub contains-insert_sorted :
    (k a : String) (xs : List String)
    → contains k (insert_sorted a xs) ≡ ((k == a) || contains k xs)
unfolding contains insert_sorted
contains-insert_sorted k a [] = refl
contains-insert_sorted k a (x ∷ xs) = ground (arith, contains-insert_sorted k a xs)

pub contains-sorted : (k : String) (xs : List String) → contains k (sorted xs) ≡ contains k xs
unfolding contains sorted
contains-sorted k [] = refl
contains-sorted k (x ∷ xs) =
    ground (arith, contains-insert_sorted k x (sorted xs), contains-sorted k xs)

pub contains-distinct : (k : String) (xs : List String) → contains k (distinct xs) ≡ contains k xs
unfolding contains distinct
contains-distinct k [] = refl
contains-distinct k (x ∷ xs) =
    ground (arith, eq_iff k x, contains-distinct k xs, contains-distinct x xs)

pub contains-keep :
    (p : String → Bool) (k : String) (xs : List String)
    → contains k (keep p xs) ≡ (contains k xs && p k)
unfolding contains keep
contains-keep p k [] = refl
contains-keep p k (x ∷ xs) = ground (arith, eq_iff k x, contains-keep p k xs)

pub contains-difference :
    (k : String) (xs ys : List String)
    → contains k (difference xs ys) ≡ (contains k xs && not (contains k ys))
unfolding difference
contains-difference k xs ys = contains-distinct k _ ∙ contains-keep (λ x. not (contains x ys)) k xs

pub contains-intersection :
    (k : String) (xs ys : List String)
    → contains k (intersection xs ys) ≡ (contains k xs && contains k ys)
unfolding intersection
contains-intersection k xs ys = contains-distinct k _ ∙ contains-keep (λ x. contains x ys) k xs

pub is_empty-insert_sorted : (a : String) (xs : List String) → is_empty (insert_sorted a xs) ≡ false
unfolding insert_sorted
is_empty-insert_sorted a [] = refl
is_empty-insert_sorted a (x ∷ xs) = ground arith

pub is_empty-sorted : (xs : List String) → is_empty (sorted xs) ≡ is_empty xs
unfolding sorted
is_empty-sorted [] = refl
is_empty-sorted (x ∷ xs) = is_empty-insert_sorted x (sorted xs)

is_empty_of_contains : (k : String) (xs : List String) → contains k xs ≡ true → is_empty xs ≡ false
unfolding contains
is_empty_of_contains k [] h = cc
is_empty_of_contains k (x ∷ xs) h = refl

pub is_empty-distinct : (xs : List String) → is_empty (distinct xs) ≡ is_empty xs
unfolding distinct
is_empty-distinct [] = refl
is_empty-distinct (x ∷ xs) = ground (arith, is_empty_of_contains x (distinct xs))

pub is_empty-keep : (p : String → Bool) (xs : List String) → is_empty (keep p xs) ≡ not (any p xs)
unfolding keep any
is_empty-keep p [] = refl
is_empty-keep p (x ∷ xs) = ground (arith, is_empty-keep p xs)

not-any-not : (p : String → Bool) (xs : List String) → not (any (λ x. not (p x)) xs) ≡ all p xs
unfolding any all
not-any-not p [] = refl
not-any-not p (x ∷ xs) = ground (arith, not-any-not p xs)

-- A set of texts is a subset of another when taking the other away leaves nothing.
pub is_empty-difference :
    (xs ys : List String) → is_empty (difference xs ys) ≡ all (λ x. contains x ys) xs
unfolding difference
is_empty-difference xs ys =
    is_empty-distinct _
    ∙ is_empty-keep (λ x. not (contains x ys)) xs
    ∙ not-any-not (λ x. contains x ys) xs

pub is_empty-intersection :
    (xs ys : List String) → is_empty (intersection xs ys) ≡ not (any (λ x. contains x ys) xs)
unfolding intersection
is_empty-intersection xs ys = is_empty-distinct _ ∙ is_empty-keep (λ x. contains x ys) xs

-- Two sets without a common member.
pub avoids_iff :
    (xs set : List String)
    → (is_empty (intersection (distinct xs) set) ≡ true)
      ↔ ((k : String) → contains k xs ≡ true → contains k set ≡ false)
avoids_iff xs set =
    let (there, back) = none_iff (λ k. contains k set) (distinct xs) in
    (
      λ h k m.
          there (sym (is_empty-intersection (distinct xs) set) ∙ h) k (contains-distinct k xs ∙ m),
      λ f.
          is_empty-intersection (distinct xs) set
          ∙ back (λ k m. f k (sym (contains-distinct k xs) ∙ m)),
    )
