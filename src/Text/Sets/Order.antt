-- ===== src/Text/Sets/Order.antt =====
-- The order of texts is total, and sorting does not depend on the order that it is given.
use mathlib.Core.List.{Perm, Permᴰ}
use mathlib.Core.Logic.{∥∥₁_elim}
use text.Mathlib.TextEquality.{Char-path, IsScalar-prop}
use lang_sop.Base.{◌≡◌, refl, ◌∙◌, String, true, false, List, [], ◌∷◌, arith}
use lang_sop.Text.Sets.{text_leb, insert_sorted, sorted}

text_leb_total : (a b : String) → text_leb a b ≡ false → text_leb b a ≡ true
unfolding text_leb
text_leb_total String.[] b h = cc
text_leb_total (String.◌∷◌ c s) String.[] h = refl
text_leb_total (String.◌∷◌ c s) (String.◌∷◌ d t) h = ground (arith, text_leb_total s t)

text_leb_antisym : (a b : String) → text_leb a b ≡ true → text_leb b a ≡ true → a ≡ b
unfolding text_leb
text_leb_antisym String.[] String.[] h k = refl
text_leb_antisym String.[] (String.◌∷◌ d t) h k = cc
text_leb_antisym (String.◌∷◌ c s) String.[] h k = cc
text_leb_antisym (String.◌∷◌ c s) (String.◌∷◌ d t) h k =
    ground (arith, text_leb_antisym s t, Char-path c d)

text_leb_trans : (a b c : String) → text_leb a b ≡ true → text_leb b c ≡ true → text_leb a c ≡ true
unfolding text_leb
text_leb_trans String.[] b c h k = refl
text_leb_trans (String.◌∷◌ x a) String.[] c h k = cc
text_leb_trans (String.◌∷◌ x a) (String.◌∷◌ y b) String.[] h k = cc
text_leb_trans (String.◌∷◌ x a) (String.◌∷◌ y b) (String.◌∷◌ z c) h k =
    ground (arith, text_leb_trans a b c)

-- Two insertions may be made in either order.
insert_sorted_comm :
    (a b : String) (xs : List String)
    → insert_sorted a (insert_sorted b xs) ≡ insert_sorted b (insert_sorted a xs)
unfolding insert_sorted
insert_sorted_comm a b [] = ground (arith, text_leb_antisym a b, text_leb_total a b)
insert_sorted_comm a b (x ∷ xs) = ground (
  arith,
  text_leb_antisym a b,
  text_leb_total a b,
  text_leb_trans a b x,
  text_leb_trans b a x,
  insert_sorted_comm a b xs,
)

sorted-Permᴰ : {xs ys : List String} → Permᴰ xs ys → sorted xs ≡ sorted ys
unfolding sorted
sorted-Permᴰ Permᴰ.nil = refl
sorted-Permᴰ (Permᴰ.cons e p) = cc (e, sorted-Permᴰ p)
sorted-Permᴰ (Permᴰ.swap {a} {b} {l} e f) = cc (e, f, insert_sorted_comm a b (sorted l))
sorted-Permᴰ (Permᴰ.trans p q) = sorted-Permᴰ p ∙ sorted-Permᴰ q

List-set : IsSet (List String)
List-set = hlevel (IsScalar-prop)

-- Lists with the same elements, as often, are sorted alike.
pub sorted-perm : {xs ys : List String} → Perm xs ys → sorted xs ≡ sorted ys
sorted-perm p = ∥∥₁_elim p (List-set _ _) sorted-Permᴰ
