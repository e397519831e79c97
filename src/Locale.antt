-- ===== src/Locale.antt =====
-- What report.js takes from the browser's locale: `localeCompare`, `localeCompare(…, {numeric: true,
-- sensitivity: 'base'})` and `toLowerCase`. The ECMAScript standard asks that the comparisons are
-- consistent comparators, and that the empty text stays empty. `double` is the rounding of `Number`.
use Prim.Native.Nat.{compare}
use scan_tls.Numbers.{Decimal}
use scan_tls.Common.{
  Text, Ordering, IsPreorder, then_by, gtb, swap_order, ◌≡◌, refl, false, [], ◌∷◌, arith, map, leb,
  ◌&&◌, if◌then◌else◌, ◌+◌,
}

abbrev pub Anything {ℓ} : {A : Type ℓ} → A → Type 0
Anything _ = Unit {0}

pub record Locale : Type 0 where
  pub compare : Text → Text → Ordering
  pub compare_order : IsPreorder compare Anything
  pub natural : Text → Text → Ordering
  pub natural_order : IsPreorder natural Anything
  pub lower : Text → Text
  pub lower_empty : lower [] ≡ []
  pub double : Decimal → Decimal

-- Code units in order, as `<` on texts reads them.
unfoldable pub compare_text : Text → Text → Ordering
compare_text [] [] = Ordering.eq
compare_text [] (b ∷ t) = Ordering.lt
compare_text (a ∷ s) [] = Ordering.gt
compare_text (a ∷ s) (b ∷ t) = then_by (compare a b) (compare_text s t)

compare_text-flip : (s t : Text) → compare_text t s ≡ swap_order (compare_text s t)
unfolding compare_text
compare_text-flip [] [] = refl
compare_text-flip [] (b ∷ t) = refl
compare_text-flip (a ∷ s) [] = refl
compare_text-flip (a ∷ s) (b ∷ t) = ground (arith, compare_text-flip s t)

compare_text_trans :
    (s t u : Text)
    → gtb (compare_text s t) ≡ false
    → gtb (compare_text t u) ≡ false
    → gtb (compare_text s u) ≡ false
unfolding compare_text
compare_text_trans [] t [] p q = refl
compare_text_trans [] t (c ∷ u) p q = refl
compare_text_trans (a ∷ s) [] u p q = cc
compare_text_trans (a ∷ s) (b ∷ t) [] p q = cc
compare_text_trans (a ∷ s) (b ∷ t) (c ∷ u) p q = ground (arith, compare_text_trans s t u)

pub compare_text-IsPreorder : IsPreorder compare_text Anything
compare_text-IsPreorder = record {
  flip = λ s t _ _. compare_text-flip s t;
  trans = λ s t u _ _ _ p q. compare_text_trans s t u p q;
}

-- The locale of the examples: plain code units, lower case for the letters of ASCII, and numbers as
-- they are written.
abbrev pub plain_locale : Locale
plain_locale = record {
  compare = compare_text;
  compare_order = compare_text-IsPreorder;
  natural = compare_text;
  natural_order = compare_text-IsPreorder;
  lower = map (λ c. if leb b'A' c && leb c b'Z' then c + 32 else c);
  lower_empty = refl;
  double = λ d. d;
}
