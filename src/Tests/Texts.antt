-- ===== src/Tests/Texts.antt =====
-- Runs of the text operations.
use lang_sop.Base.{◌≡◌, refl, [], ◌∷◌, some, true, false}
use lang_sop.Text.Decimal.{decimal}
use lang_sop.Text.{has_part, lower, strip, cut_at, split, splitlines}
use lang_sop.Text.Sets.{sorted, difference, same_set}

strip_test : strip "  a b\t" ≡ "a b"
unfolding strip
strip_test = refl

lines_test : splitlines "ab\r\n\ncd" ≡ "ab" ∷ "" ∷ "cd" ∷ []
unfolding splitlines
lines_test = refl

split_test : split " ab c  d " ≡ "ab" ∷ "c" ∷ "d" ∷ []
unfolding split
split_test = refl

cut_test : cut_at b':' "key: a:b" ≡ some ("key", " a:b")
unfolding cut_at
cut_test = refl

part_test : has_part (lower "ref:CONTESTED") "contested" ≡ true
unfolding has_part lower
part_test = refl

sorted_test : sorted (difference ("b" ∷ "a" ∷ "c" ∷ "b" ∷ []) ("c" ∷ [])) ≡ "a" ∷ "b" ∷ []
unfolding sorted difference
sorted_test = refl

same_set_test : same_set ("a" ∷ "b" ∷ "a" ∷ []) ("b" ∷ "a" ∷ []) ≡ true
unfolding same_set
same_set_test = refl

decimal_of_1024 : decimal 1024 ≡ "1024"
unfolding decimal
decimal_of_1024 = refl

kelvin_test : lower "NETWORK" ≡ "network"
unfolding lower
kelvin_test = refl

dotted_test : has_part (lower "dİspatch") "dispatch" ≡ false
unfolding has_part lower
dotted_test = refl
