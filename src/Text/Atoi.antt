-- ===== src/Text/Atoi.antt =====
-- strconv.Atoi of Go on a 64-bit machine.
use line_stock_alert.Common.{
  ℕ, zero, suc, ◌+◌, ◌*◌, ◌-◌, ◌/◌, ◌%◌, ◌^◌, true, false, ◌&&◌, Option, none, some, [], ◌∷◌,
  if◌then◌else◌, leb, ltb, ◌==◌, ◌≡◌, refl,
}
use line_stock_alert.Common.Int.{ℤ, pos, negsuc}
use line_stock_alert.Text.{Text, text}

-- The value of the digits after those of `n`.
unfoldable pub digits_from : ℕ → Text → Option ℕ
digits_from n [] = some n
digits_from n (c ∷ s) =
    let rest = digits_from (n * 10 + (c - b'0')) s in
    if leb b'0' c && leb c b'9' then rest else none

unfoldable pub digits : Text → Option ℕ
unfolding digits_from
digits [] = none
digits (c ∷ s) = digits_from 0 (c ∷ s)

abbrev negated : ℕ → ℤ
negated zero = pos 0
negated (suc n) = negsuc n

abbrev non_negative : Option ℕ → Option ℤ
non_negative none = none
non_negative (some n) = if ltb n (2 ^ 63) then some (pos n) else none

abbrev negative : Option ℕ → Option ℤ
negative none = none
negative (some n) = if leb n (2 ^ 63) then some (negated n) else none

-- None on an error, out of the range of int included.
unfoldable pub atoi : Text → Option ℤ
unfolding digits
atoi [] = none
atoi (c ∷ s) =
    if c == b'-'
    then negative (digits s)
    else if c == b'+'
    then non_negative (digits s)
    else non_negative (digits (c ∷ s))

-- The decimal digits of a number, in at most `rounds` rounds, before those so far.
itoa_from : ℕ → ℕ → Text → Text
itoa_from zero n done = done
itoa_from (suc rounds) n done = elim (n / 10 == 0) [
  | true ↦ (b'0' + n % 10) ∷ done
  | false ↦ itoa_from rounds (n / 10) ((b'0' + n % 10) ∷ done)
]

-- strconv.Itoa, of a number that is not negative.
unfoldable pub itoa : ℕ → Text
unfolding itoa_from
itoa n = itoa_from (suc n) n []

two_hundred : itoa 240 ≡ text "240"
unfolding itoa
two_hundred = refl

minus_twelve : atoi (text "-12") ≡ some (negsuc 11)
unfolding atoi
minus_twelve = refl
