-- ===== src/Text/Sets.antt =====
-- Python's sets of texts, kept as lists, and `sorted` over texts in the order of code points.
pub mod Laws
pub mod Order
use Prim.Native.Char.{code}
use lang_sop.Base.{
  String, Bool, true, false, not, ◌&&◌, ◌||◌, ltb, nat_beq, List, [], ◌∷◌, all, keep, contains,
  if◌then◌else◌,
}

-- `a <= b`: texts are compared by the first code point in which they differ.
unfoldable pub text_leb : String → String → Bool
text_leb String.[] t = true
text_leb (String.◌∷◌ c s) String.[] = false
text_leb (String.◌∷◌ c s) (String.◌∷◌ d t) =
    ltb (code c) (code d) || nat_beq (code c) (code d) && text_leb s t

unfoldable pub insert_sorted : String → List String → List String
unfolding text_leb
insert_sorted a [] = a ∷ []
insert_sorted a (x ∷ xs) =
    let rest = insert_sorted a xs in if text_leb a x then a ∷ x ∷ xs else x ∷ rest

-- `sorted(xs)`
unfoldable pub sorted : List String → List String
unfolding insert_sorted
sorted [] = []
sorted (x ∷ xs) = insert_sorted x (sorted xs)

-- The elements of `set(xs)`, each once.
unfoldable pub distinct : List String → List String
unfolding contains
distinct [] = []
distinct (x ∷ xs) = let rest = distinct xs in if contains x rest then rest else x ∷ rest

-- `set(xs) - set(ys)` and `set(xs) & set(ys)`
unfoldable pub difference : List String → List String → List String
unfolding distinct keep contains
difference xs ys = distinct (keep (λ x. not (contains x ys)) xs)

unfoldable pub intersection : List String → List String → List String
unfolding distinct keep contains
intersection xs ys = distinct (keep (λ x. contains x ys) xs)

-- `set(xs) == set(ys)`
unfoldable pub same_set : List String → List String → Bool
unfolding all contains
same_set xs ys = all (λ x. contains x ys) xs && all (λ y. contains y xs) ys
