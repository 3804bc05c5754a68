-- ===== src/Base/Tests.antt =====
-- Boolean tests and the conditional, and the splits on computed values.
use Prim.Native.Nat.{ℕ, compare, Ordering}
use Prim.Native.String.{String, ◌++◌ as ◌<>◌}
use text.Mathlib.TextLemmas.{nil-append, cons-append}
use mathlib.Core.Path.{◌≡◌, refl}
use mathlib.Core.Logic.{◌⊎◌, inl, inr}
use mathlib.Core.Bool.{Bool, true, false, not, ◌&&◌}
use native.Mathlib.Omega.{arith}
use mathlib.Core.Option.{Option, none, some}
use mathlib.Core.List.{List, [], ◌∷◌}

abbrev pub ltb : ℕ → ℕ → Bool
ltb a b = elim (compare a b) [ Ordering.lt ↦ true | _ ↦ false ]

abbrev pub leb : ℕ → ℕ → Bool
leb a b = elim (compare a b) [ Ordering.gt ↦ false | _ ↦ true ]

abbrev pub nat_beq : ℕ → ℕ → Bool
nat_beq a b = elim (compare a b) [ Ordering.eq ↦ true | _ ↦ false ]

infix 1 if◌then◌else◌
abbrev pub if◌then◌else◌ {ℓ} : {A : Type ℓ} → Bool → A → A → A
if true then x else y = x
if false then x else y = y

pub Bool-cases : (b : Bool) → (b ≡ true) ⊎ (b ≡ false)
Bool-cases true = inl refl
Bool-cases false = inr refl

pub Option-cases {ℓ} : {A : Type ℓ} (o : Option A) → (o ≡ none) ⊎ ((a : A) × (o ≡ some a))
Option-cases none = inl refl
Option-cases (some a) = inr (a, refl)

-- Python's truth value of a string, of a tuple, and of an optional string.
abbrev pub is_empty_text : String → Bool
is_empty_text String.[] = true
is_empty_text (String.◌∷◌ c s) = false

abbrev pub is_empty {ℓ} : {A : Type ℓ} → List A → Bool
is_empty [] = true
is_empty (x ∷ xs) = false

abbrev pub is_missing : Option String → Bool
is_missing none = true
is_missing (some s) = is_empty_text s

abbrev pub is_some {ℓ} : {A : Type ℓ} → Option A → Bool
is_some none = false
is_some (some a) = true

-- An optional text that is absent has no value, as has an empty one.
unfoldable pub or_empty : Option String → String
or_empty none = ""
or_empty (some s) = s

pub both : {a b : Bool} → (a && b) ≡ true → (a ≡ true) × (b ≡ true)
both {a} {b} h = ground arith

pub false_of_not : {a : Bool} → not a ≡ true → a ≡ false
false_of_not {a} h = ground arith

pub not_of_false : {a : Bool} → a ≡ false → not a ≡ true
not_of_false {a} h = ground arith

pub double_negation : {a : Bool} → not (not a) ≡ true → a ≡ true
double_negation {a} h = ground arith

pub is_empty_text-append : (a b : String) → is_empty_text b ≡ false → is_empty_text (a <> b) ≡ false
is_empty_text-append String.[] b h = rw (nil-append b) h
is_empty_text-append (String.◌∷◌ c a) b h = rw (cons-append c a b) refl
