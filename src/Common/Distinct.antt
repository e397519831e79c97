-- ===== src/Common/Distinct.antt =====
-- `Array.from(new Set(ss))` holds each text of `ss` once.
use mathlib.Core.Path.{◌≡◌, refl}
use mathlib.Core.Logic.{inl, inr}
use mathlib.Core.Bool.{false, ◌||◌}
use mathlib.Core.List.{List, [], ◌∷◌, ◌++◌}
use native.Mathlib.Omega.{arith}
use scan_tls.Common.Tests.{Bool-cases}
use scan_tls.Common.Texts.{
  Text, ◌==◌, eq_iff, mem_text, mem_text-append, append_distinct, distinct_from, distinct,
}

abbrev pub IsDistinct : List Text → Type 0
IsDistinct [] = Unit
IsDistinct (s ∷ ss) = (mem_text s ss ≡ false) × IsDistinct ss

IsDistinct-append :
    (seen : List Text) (s : Text)
    → mem_text s seen ≡ false
    → IsDistinct seen
    → IsDistinct (seen ++ s ∷ [])
unfolding mem_text
IsDistinct-append [] s fresh d = (refl, tt)
IsDistinct-append (x ∷ xs) s fresh (out, d) = (
  ground (arith, mem_text-append x xs (s ∷ []), eq_iff x s, eq_iff s x),
  IsDistinct-append xs s (ground arith) d,
)

pub IsDistinct-append_distinct :
    (seen : List Text) (s : Text) → IsDistinct seen → IsDistinct (append_distinct seen s)
unfolding append_distinct
IsDistinct-append_distinct seen s d = elim (Bool-cases (mem_text s seen)) [
  | inl old ↦ rw old d
  | inr fresh ↦ rw fresh (IsDistinct-append seen s fresh d)
]

pub mem_text-append_distinct :
    (j : Text) (seen : List Text) (s : Text)
    → mem_text j (append_distinct seen s) ≡ (mem_text j seen || s == j)
unfolding append_distinct mem_text
mem_text-append_distinct j seen s =
    ground (arith, mem_text-append j seen (s ∷ []), eq_iff s j, same_mem s j seen)
  where
    same_mem : (s j : Text) (seen : List Text) → s ≡ j → mem_text s seen ≡ mem_text j seen
    same_mem s j seen e = rw e

IsDistinct-distinct_from :
    (seen ss : List Text) → IsDistinct seen → IsDistinct (distinct_from seen ss)
unfolding distinct_from
IsDistinct-distinct_from seen [] d = d
IsDistinct-distinct_from seen (s ∷ ss) d =
    IsDistinct-distinct_from (append_distinct seen s) ss (IsDistinct-append_distinct seen s d)

pub distinct-IsDistinct : (ss : List Text) → IsDistinct (distinct ss)
unfolding distinct
distinct-IsDistinct ss = IsDistinct-distinct_from [] ss tt

mem_text-distinct_from :
    (j : Text) (seen ss : List Text)
    → mem_text j (distinct_from seen ss) ≡ (mem_text j seen || mem_text j ss)
unfolding distinct_from mem_text
mem_text-distinct_from j seen [] = ground arith
mem_text-distinct_from j seen (s ∷ ss) =
    ground (
      arith,
      mem_text-distinct_from j (append_distinct seen s) ss,
      mem_text-append_distinct j seen s,
    )

pub mem_text-distinct : (j : Text) (ss : List Text) → mem_text j (distinct ss) ≡ mem_text j ss
unfolding distinct mem_text
mem_text-distinct j ss = mem_text-distinct_from j [] ss
