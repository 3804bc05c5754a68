-- ===== src/Text/Decimal.antt =====
-- `str(n)` of a natural number.
use Prim.Native.Nat.{◌/◌, ◌%◌}
use Prim.Native.String.{char_at}
use lang_sop.Base.{ℕ, zero, suc, String, ◌<>◌, nat_beq, if◌then◌else◌}

abbrev digit : ℕ → String
digit n = String.◌∷◌ (char_at "0123456789" n) String.[]

-- The number has at most as many digits as its value and one.
digits_of : ℕ → ℕ → String → String
digits_of zero n rest = rest
digits_of (suc fuel) n rest =
    let more = digits_of fuel (n / 10) (digit (n % 10) <> rest) in
    if nat_beq (n / 10) 0 then digit (n % 10) <> rest else more

unfoldable pub decimal : ℕ → String
unfolding digits_of
decimal n = digits_of (suc n) n ""
