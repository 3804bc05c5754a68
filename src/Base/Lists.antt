-- ===== src/Base/Lists.antt =====
-- Lists tested by Boolean functions, and lists built by conditional appends.
use Prim.Native.Nat.{ℕ, suc}
use Prim.Native.String.{String}
use mathlib.Core.Path.{◌≡◌, refl}
use mathlib.Core.Logic.{inl, inr, ◌↔◌}
use mathlib.Core.Bool.{Bool, true, false, not, ◌&&◌, ◌||◌}
use mathlib.Core.Option.{Option, none, some}
use mathlib.Core.List.{List, [], ◌∷◌, ◌++◌, map}
use native.Mathlib.Omega.{arith}
use text.Mathlib.Text.{◌==◌}
use text.Mathlib.TextEquality.{eq_iff}
use text.Mathlib.TextPositions.{eq_refl}
use lang_sop.Base.Tests.{if◌then◌else◌, is_empty, Bool-cases}

module _ {ℓ} {A : Type ℓ} where
  abbrev pub length : List A → ℕ
  length [] = 0
  length (x ∷ xs) = suc (length xs)

  unfoldable pub any : (A → Bool) → List A → Bool
  any p [] = false
  any p (x ∷ xs) = p x || any p xs

  unfoldable pub all : (A → Bool) → List A → Bool
  all p [] = true
  all p (x ∷ xs) = p x && all p xs

  -- `next((x for x in xs if p(x)), None)`
  unfoldable pub find? : (A → Bool) → List A → Option A
  find? p [] = none
  find? p (x ∷ xs) = if p x then some x else find? p xs

  -- `[x for x in xs if p(x)]`
  unfoldable pub keep : (A → Bool) → List A → List A
  keep p [] = []
  keep p (x ∷ xs) = let rest = keep p xs in if p x then x ∷ rest else rest

  -- `if b: xs.append(x)`, as the list that is appended.
  abbrev pub only_if : Bool → A → List A
  only_if true x = x ∷ []
  only_if false x = []

  -- Every element satisfies a predicate.
  abbrev pub All {κ} : (A → Type κ) → List A → Type κ
  All P [] = Unit
  All P (x ∷ xs) = P x × All P xs

module _ {ℓ} {A : Type ℓ} where
  pub any-append : (p : A → Bool) (xs ys : List A) → any p (xs ++ ys) ≡ (any p xs || any p ys)
  unfolding any
  any-append p [] ys = refl
  any-append p (x ∷ xs) ys = ground (arith, any-append p xs ys)

  pub is_empty-append : (xs ys : List A) → is_empty (xs ++ ys) ≡ (is_empty xs && is_empty ys)
  is_empty-append [] ys = refl
  is_empty-append (x ∷ xs) ys = refl

  pub All-append {κ} : (P : A → Type κ) (xs ys : List A) → All P xs → All P ys → All P (xs ++ ys)
  All-append P [] ys h k = k
  All-append P (x ∷ xs) ys h k = (h.0, All-append P xs ys h.1 k)

  pub find?-any :
      (p : A → Bool) (xs : List A)
      → any p xs ≡ true
      → (a : A) × (find? p xs ≡ some a) × (p a ≡ true)
  unfolding find? any
  find?-any p [] h = cc
  find?-any p (x ∷ xs) h = elim (Bool-cases (p x)) [
    | inl e ↦ (x, rw e, e)
    | inr e ↦ rw e (find?-any p xs (rw e at h))
  ]

module _ {ℓ} {A : Type ℓ} where
  pub is_empty-only_if : (b : Bool) (x : A) → is_empty (only_if b x) ≡ not b
  is_empty-only_if true x = refl
  is_empty-only_if false x = refl

  pub any-only_if : (p : A → Bool) (b : Bool) (x : A) → any p (only_if b x) ≡ (b && p x)
  unfolding any
  any-only_if p true x = ground arith
  any-only_if p false x = refl

  pub any-false : (p : A → Bool) (xs : List A) → is_empty xs ≡ true → any p xs ≡ false
  unfolding any
  any-false p [] h = refl
  any-false p (x ∷ xs) h = cc

module _ {ℓ κ} {A : Type ℓ} {B : Type κ} where
  pub is_empty-map : (f : A → B) (xs : List A) → is_empty (map f xs) ≡ is_empty xs
  is_empty-map f [] = refl
  is_empty-map f (x ∷ xs) = refl

-- A loop whose rounds append lists.
unfoldable pub concat_map {ℓ κ} : {A : Type ℓ} {B : Type κ} → (A → List B) → List A → List B
concat_map f [] = []
concat_map f (x ∷ xs) = f x ++ concat_map f xs

-- `x in xs` for texts.
unfoldable pub contains : String → List String → Bool
contains a [] = false
contains a (x ∷ xs) = a == x || contains a xs

pub all_iff :
    (p : String → Bool) (xs : List String)
    → (all p xs ≡ true) ↔ ((k : String) → contains k xs ≡ true → p k ≡ true)
unfolding all contains
all_iff p [] = (λ h k m. cc, λ h. refl)
all_iff p (x ∷ xs) = (
  λ h k m. ground (arith, (all_iff p xs).0 (ground arith) k, eq_iff k x),
  λ h. ground (arith, h x, eq_refl x, (all_iff p xs).1 (λ k m. h k (ground arith))),
)

pub none_iff :
    (p : String → Bool) (xs : List String)
    → (not (any p xs) ≡ true) ↔ ((k : String) → contains k xs ≡ true → p k ≡ false)
unfolding any contains
none_iff p [] = (λ h k m. cc, λ h. refl)
none_iff p (x ∷ xs) = (
  λ h k m. ground (arith, (none_iff p xs).0 (ground arith) k, eq_iff k x),
  λ h. ground (arith, h x, eq_refl x, (none_iff p xs).1 (λ k m. h k (ground arith))),
)
