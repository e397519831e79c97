-- ===== src/TlsChecks/Ports.antt =====
-- `parsePorts`: what it accepts, and that it reads back the text that the form makes of a port list
-- (`current.join(", ")` in frontend/src/components/TlsChecksPicker.tsx).
use Prim.Native.Nat.{◌^◌}
use mathlib.Core.List.{append_assoc, append-nil}
use native.Mathlib.Nat.{pow-suc}
use scan_tls.Common.{
  Text, str, ℕ, zero, suc, ◌+◌, ◌*◌, ◌/◌, ◌%◌, ◌≤◌, ◌<◌, true, false, List, [], ◌∷◌, ◌++◌, map,
  join, Option, none, some, ◌≡◌, ◌≢◌, refl, sym, ◌∙◌, ap, All, length, ltb, arith, is_empty, inl,
  inr, Bool-cases,
}
use scan_tls.Value.{show_digits, show_nat, show_nat-nonempty}
use scan_tls.Numbers.{is_digit}
use scan_tls.TlsChecks.{
  listed, is_separator, add_part, split_parts, digits_value, all_digits, port_number, port_numbers,
  has_duplicate, accept_ports, ports_of_parts, parse_ports,
}

-- A port list that the scanner takes: in range, without duplicates, not empty, at most 16 ports.
pub record IsPortList (ports : List ℕ) : Type 0 where
  pub in_range : All (λ n. (1 ≤ n) × (n ≤ 65535)) ports
  pub no_duplicate : has_duplicate ports ≡ false
  pub nonempty : ports ≢ []
  pub at_most_16 : length ports ≤ 16

-- Every port that `port_numbers` gives is in range.
port_numbers-in_range :
    (parts : List Text) (ns : List ℕ)
    → port_numbers parts ≡ some ns
    → All (λ n. (1 ≤ n) × (n ≤ 65535)) ns × (length ns ≡ length parts)
unfolding port_numbers
port_numbers-in_range [] [] h = (tt, refl)
port_numbers-in_range [] (n ∷ ns) h = cc
port_numbers-in_range (p ∷ ps) [] h = ground arith
port_numbers-in_range (p ∷ ps) (n ∷ ns) h = ground (arith, port_numbers-in_range ps ns)

accept_ports-listed :
    (o : Option (List ℕ)) (ns : List ℕ)
    → accept_ports o ≡ listed ns
    → (o ≡ some ns) × (has_duplicate ns ≡ false) × (length ns ≤ 16)
unfolding accept_ports
accept_ports-listed none ns h = cc
accept_ports-listed (some ms) ns h = ground arith

ports_of_parts-listed :
    (parts : List Text) (ns : List ℕ) → ports_of_parts parts ≡ listed ns → IsPortList ns
ports_of_parts-listed [] ns h = cc
ports_of_parts-listed (p ∷ ps) ns h =
    let (read, distinct_, few) = accept_ports-listed _ ns h in
    let (range, same) = port_numbers-in_range (p ∷ ps) ns read in
    record {
      in_range = range;
      no_duplicate = distinct_;
      nonempty = λ e. absurd (omega (arith, ap length e, same));
      at_most_16 = few;
    }

-- Whatever the user types, the ports that `parsePorts` returns are in 1..65535, without duplicates,
-- at least one and at most 16.
pub parse_ports-IsPortList : (s : Text) (ns : List ℕ) → parse_ports s ≡ listed ns → IsPortList ns
unfolding parse_ports
parse_ports-IsPortList s ns h = ports_of_parts-listed (split_parts [] s) ns h

all_digits-show_digits :
    (fuel n : ℕ) (acc : Text) → all_digits acc ≡ true → all_digits (show_digits fuel n acc) ≡ true
unfolding all_digits show_digits
all_digits-show_digits zero n acc h = h
all_digits-show_digits (suc fuel) n acc h =
    ground (arith, all_digits-show_digits fuel (n / 10) ((b'0' + n % 10) ∷ acc))

digits_value-show_digits :
    (fuel n : ℕ) (acc : Text)
    → n < fuel
    → digits_value 0 (show_digits fuel n acc) ≡ digits_value n acc
unfolding digits_value show_digits
digits_value-show_digits zero n acc h = absurd (omega arith)
digits_value-show_digits (suc fuel) n acc h = elim (Bool-cases (ltb n 10)) [
  | inl last ↦ rw last (ap (λ v. digits_value v acc) (omega arith))
  | inr more ↦ rw more (
      digits_value-show_digits fuel (n / 10) ((b'0' + n % 10) ∷ acc) (ground arith)
      ∙ ap (λ v. digits_value v acc) (omega arith))
]

fewer : (n b : ℕ) → n < b * 10 → n / 10 < b
fewer n b h = omega arith

digit-not_separator : (c : ℕ) → is_digit c ≡ true → is_separator c ≡ false
unfolding is_separator
digit-not_separator c h = ground arith

length-show_digits :
    (fuel n k : ℕ) (acc : Text)
    → n < 10 ^ suc k
    → length (show_digits fuel n acc) ≤ suc k + length acc
unfolding show_digits
length-show_digits zero n k acc h = omega arith
length-show_digits (suc fuel) n zero acc h = ground arith
length-show_digits (suc fuel) n (suc k) acc h = ground (
  arith,
  length-show_digits fuel (n / 10) k ((b'0' + n % 10) ∷ acc)
      (fewer n (10 ^ suc k) (rw pow-suc at h)),
)

show_nat-digits : (n : ℕ) → all_digits (show_nat n) ≡ true
unfolding show_nat all_digits
show_nat-digits n = all_digits-show_digits (suc n) n [] refl

show_nat-value : (n : ℕ) → digits_value 0 (show_nat n) ≡ n
unfolding show_nat digits_value
show_nat-value n = digits_value-show_digits (suc n) n [] (omega arith)

length-show_nat : (n : ℕ) → n ≤ 65535 → length (show_nat n) ≤ 5
unfolding show_nat
length-show_nat n h = length-show_digits (suc n) n 4 [] (omega arith)

length-pos : (s : Text) → is_empty s ≡ false → 1 ≤ length s
length-pos [] h = cc
length-pos (c ∷ s) h = omega arith

port_number_of_digits :
    (p : Text)
    → all_digits p ≡ true
    → 1 ≤ length p
    → length p ≤ 5
    → port_number p ≡ some (digits_value 0 p)
unfolding port_number
port_number_of_digits p d low high = ground arith

port_number-show_nat : (n : ℕ) → n ≤ 65535 → port_number (show_nat n) ≡ some n
port_number-show_nat n high =
    port_number_of_digits (show_nat n) (show_nat-digits n)
      (length-pos (show_nat n) (show_nat-nonempty n)) (length-show_nat n high)
    ∙ ap some (show_nat-value n)

port_numbers-show_nat :
    (ns : List ℕ) → All (λ n. (1 ≤ n) × (n ≤ 65535)) ns → port_numbers (map show_nat ns) ≡ some ns
unfolding port_numbers
port_numbers-show_nat [] h = refl
port_numbers-show_nat (n ∷ ns) ((low, high), h) =
    ground (arith, port_number-show_nat n, port_numbers-show_nat ns h)

split_parts-word :
    (part t s : Text) → all_digits t ≡ true → split_parts part (t ++ s) ≡ split_parts (part ++ t) s
unfolding split_parts all_digits
split_parts-word part [] s h = ap (λ q. split_parts q s) (sym (append-nil part))
split_parts-word part (c ∷ t) s h = ground (
  arith,
  split_parts-word (part ++ c ∷ []) t s,
  append_assoc part (c ∷ []) t,
  digit-not_separator c,
)

split_parts-comma :
    (part s : Text) → split_parts part (b',' ∷ b' ' ∷ s) ≡ add_part part (split_parts [] s)
unfolding split_parts is_separator
split_parts-comma part s = refl

-- `ports.join(", ")`
abbrev pub show_ports : List ℕ → Text
show_ports ns = join (str ", ") (map show_nat ns)

add_part-show_nat : (n : ℕ) (parts : List Text) → add_part (show_nat n) parts ≡ show_nat n ∷ parts
add_part-show_nat n parts = rw (show_nat-nonempty n) refl

split_parts-alone :
    (t : Text) → all_digits t ≡ true → is_empty t ≡ false → split_parts [] t ≡ t ∷ []
unfolding split_parts
split_parts-alone t d h =
    ap (split_parts []) (sym (append-nil t)) ∙ (split_parts-word [] t [] d ∙ rw h refl)

split_parts-show_ports :
    (n : ℕ) (ns : List ℕ) → split_parts [] (show_ports (n ∷ ns)) ≡ map show_nat (n ∷ ns)
unfolding join
split_parts-show_ports n [] =
    split_parts-alone (show_nat n) (show_nat-digits n) (show_nat-nonempty n)
split_parts-show_ports n (m ∷ ns) =
    split_parts-word [] (show_nat n) (b',' ∷ b' ' ∷ show_ports (m ∷ ns)) (show_nat-digits n)
    ∙ (split_parts-comma (show_nat n) (show_ports (m ∷ ns))
        ∙ (add_part-show_nat n (split_parts [] (show_ports (m ∷ ns)))
            ∙ ap (◌∷◌ (show_nat n)) (split_parts-show_ports m ns)))

accept_ports_of_valid :
    (ns : List ℕ) → has_duplicate ns ≡ false → length ns ≤ 16 → accept_ports (some ns) ≡ listed ns
unfolding accept_ports
accept_ports_of_valid ns d h = ground arith

-- The text that the form makes of a port list is read back as that list.
pub parse_ports-show_ports : (ns : List ℕ) → IsPortList ns → parse_ports (show_ports ns) ≡ listed ns
unfolding parse_ports
parse_ports-show_ports [] v = absurd (v.nonempty refl)
parse_ports-show_ports (n ∷ ns) v =
    ap ports_of_parts (split_parts-show_ports n ns)
    ∙ (ap accept_ports (port_numbers-show_nat (n ∷ ns) v.in_range)
        ∙ accept_ports_of_valid (n ∷ ns) v.no_duplicate v.at_most_16)
