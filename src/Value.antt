-- ===== src/Value.antt =====
-- tls_scanner/exports/assets/html/js/report.js: scalar values of the embedded report data, and how
-- the page turns them into text (`normalize`). A cell of `raw_results` is one of these; integers
-- are the only numbers that the scanner writes there.
use scan_tls.Common.{
  Text, str, is_empty, if◌then◌else◌, ◌≡◌, ℕ, zero, suc, ◌+◌, ◌/◌, ◌%◌, ltb, Bool, true, false,
  List, [], ◌∷◌, join, arith,
}

pub data Value : Type 0 where
  null : Value
  bool : Bool → Value
  -- `int true n` is -n
  int : Bool → ℕ → Value
  text : Text → Value
  texts : List Text → Value

-- Decimal digits in front of a text; the fuel is at least the number of digits.
unfoldable pub show_digits : ℕ → ℕ → Text → Text
show_digits zero n acc = acc
show_digits (suc fuel) n acc =
    let more = show_digits fuel (n / 10) ((b'0' + n % 10) ∷ acc) in
    if ltb n 10 then (b'0' + n) ∷ acc else more

-- `String(n)` of a natural number
unfoldable pub show_nat : ℕ → Text
unfolding show_digits
show_nat n = show_digits (suc n) n []

-- `String(value)`; an array is its elements joined by commas
unfoldable pub to_text : Value → Text
unfolding show_nat join
to_text null = str "null"
to_text (bool true) = str "true"
to_text (bool false) = str "false"
to_text (int true n) = if ltb 0 n then b'-' ∷ show_nat n else show_nat n
to_text (int false n) = show_nat n
to_text (text s) = s
to_text (texts ss) = join (str ",") ss

-- `value == null || value === '' ? '-' : value`, as text
unfoldable pub normalize : Value → Text
unfolding to_text
normalize null = str "-"
normalize (text s) = if is_empty s then str "-" else s
normalize v = to_text v

show_digits-cons : (fuel n : ℕ) (acc : Text) → is_empty (show_digits (suc fuel) n acc) ≡ false
unfolding show_digits
show_digits-cons zero n acc = ground arith
show_digits-cons (suc fuel) n acc =
    ground (arith, show_digits-cons fuel (n / 10) ((b'0' + n % 10) ∷ acc))

-- A number never prints as the empty text.
pub show_nat-nonempty : (n : ℕ) → is_empty (show_nat n) ≡ false
unfolding show_nat
show_nat-nonempty n = show_digits-cons n n []
