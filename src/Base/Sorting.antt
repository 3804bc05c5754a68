-- ===== src/Base/Sorting.antt =====
-- `sorted(xs, key=...)`: the stable sort by a test that is true where the first may stand before the
-- second.
use mathlib.Core.Bool.{Bool, false}
use mathlib.Core.Option.{Option, none, some}
use mathlib.Core.List.{List, [], ◌∷◌}
use lang_sop.Base.Tests.{if◌then◌else◌}

module _ {ℓ} {A : Type ℓ} (before : A → A → Bool) where
  unfoldable pub insert_by : A → List A → List A
  insert_by a [] = a ∷ []
  insert_by a (x ∷ xs) = let rest = insert_by a xs in if before a x then a ∷ x ∷ xs else x ∷ rest

  unfoldable pub sort_by : List A → List A
  unfolding insert_by
  sort_by [] = []
  sort_by (x ∷ xs) = insert_by x (sort_by xs)

-- `xs[0]`, where the list is tested to be not empty.
abbrev pub first? {ℓ} : {A : Type ℓ} → List A → Option A
first? [] = none
first? (x ∷ xs) = some x

-- `x is not None and p(x)`, and what `if x is not None` adds to a list.
abbrev pub test_some {ℓ} : {A : Type ℓ} → (A → Bool) → Option A → Bool
test_some p none = false
test_some p (some a) = p a

abbrev pub from_some {ℓ κ} : {A : Type ℓ} {B : Type κ} → (A → List B) → Option A → List B
from_some f none = []
from_some f (some a) = f a
