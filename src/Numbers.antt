-- ===== src/Numbers.antt =====
-- `Number(text)` in tls_scanner/exports/assets/html/js/report.js, for the texts that `compareValues`
-- passes: those of the characters `0-9`, `.` and `-` alone. The text is read as a decimal fraction,
-- which `double` rounds to the value that a double keeps of it: a parameter, of which nothing is
-- assumed. Infinity is any decimal beyond the doubles. `none` is NaN.
pub mod Order
use scan_tls.Common.{
  Text, ℕ, suc, ◌+◌, ◌-◌, ◌*◌, Bool, true, false, Option, none, some, [], ◌∷◌, eqb, leb, ◌&&◌,
  if◌then◌else◌, Ordering, compare,
}
use Prim.Native.Nat.{◌^◌}

-- (-1)^negative * mantissa / 10^scale
pub record Decimal : Type 0 where
  pub negative : Bool
  pub mantissa : ℕ
  pub scale : ℕ

abbrev pub is_digit : ℕ → Bool
is_digit c = leb b'0' c && leb c b'9'

-- behind the point; `seen` says that there was a digit
pub read_fraction : Bool → ℕ → Bool → ℕ → Text → Option Decimal
read_fraction negative mantissa seen scale [] =
    if seen then some (record { negative = negative; mantissa = mantissa; scale = scale }) else none
read_fraction negative mantissa seen scale (c ∷ s) =
    let more = read_fraction negative (mantissa * 10 + (c - b'0')) true (suc scale) s in
    if is_digit c then more else none

pub read_integer : Bool → ℕ → Bool → Text → Option Decimal
unfolding read_fraction
read_integer negative mantissa seen [] =
    if seen then some (record { negative = negative; mantissa = mantissa; scale = 0 }) else none
read_integer negative mantissa seen (c ∷ s) =
    let more = read_integer negative (mantissa * 10 + (c - b'0')) true s in
    let fraction = read_fraction negative mantissa seen 0 s in
    if is_digit c then more else if eqb c b'.' then fraction else none

-- the decimal that a text writes; the empty text is 0
unfoldable pub read_decimal : Text → Option Decimal
unfolding read_integer
read_decimal [] = some (record { negative = false; mantissa = 0; scale = 0 })
read_decimal (c ∷ s) =
    if eqb c b'-' then read_integer true 0 false s else read_integer false 0 false (c ∷ s)

-- `Number(text)`
unfoldable pub to_number : (Decimal → Decimal) → Text → Option Decimal
unfolding read_decimal
to_number double s = elim (read_decimal s) [ none ↦ none | some d ↦ some (double d) ]

abbrev pub pos_part : Decimal → ℕ
pos_part d = if d.negative then 0 else d.mantissa

abbrev pub neg_part : Decimal → ℕ
neg_part d = if d.negative then d.mantissa else 0

-- the sign of `x - y`
unfoldable pub compare_decimal : Decimal → Decimal → Ordering
compare_decimal x y =
    compare (pos_part x * 10 ^ y.scale + neg_part y * 10 ^ x.scale)
      (neg_part x * 10 ^ y.scale + pos_part y * 10 ^ x.scale)
