-- ===== src/Common/Texts.antt =====
-- Texts as lists of UTF-16 code units, the way JavaScript indexes them.
use Prim.Native.Char.{code}
use Prim.Native.String.{String}
use Prim.Native.Nat.{ℕ}
use mathlib.Core.Path.{◌≡◌, refl, ap₂}
use mathlib.Core.Logic.{◌≢◌, ◌↔◌}
use mathlib.Core.Bool.{Bool, true, false, ◌&&◌, ◌||◌}
use mathlib.Core.List.{List, [], ◌∷◌, ◌++◌}
use mathlib.Core.Option.{Option, none, some}
use native.Mathlib.Omega.{arith}
use scan_tls.Common.Tests.{leb, eqb, eqb_iff, if◌then◌else◌, and-true}

abbrev pub Text : Type 0
Text = List ℕ

-- A literal. Every literal of the program lies in the basic plane, one code unit to a character.
abbrev pub str : String → Text
str String.[] = []
str (String.◌∷◌ c s) = code c ∷ str s

-- an entry of a table of texts
infix 70 ◌:>◌
abbrev pub ◌:>◌ : String → String → Text × Text
key :> value = (str key, str value)

-- `s === t`
infix 50 ◌==◌
unfoldable pub ◌==◌ : Text → Text → Bool
[] == [] = true
(a ∷ s) == (b ∷ t) = eqb a b && s == t
_ == _ = false

pub eq_refl : (s : Text) → (s == s) ≡ true
unfolding ◌==◌
eq_refl [] = refl
eq_refl (a ∷ s) = ground (arith, eq_refl s)

eq_sound : (s t : Text) → (s == t) ≡ true → s ≡ t
unfolding ◌==◌
eq_sound [] [] h = refl
eq_sound [] (b ∷ t) h = cc
eq_sound (a ∷ s) [] h = cc
eq_sound (a ∷ s) (b ∷ t) h =
    let (p, q) = and-true _ _ h in ap₂ ◌∷◌ ((eqb_iff a b).0 p) (eq_sound s t q)

pub eq_iff : (s t : Text) → ((s == t) ≡ true) ↔ (s ≡ t)
eq_iff s t = (eq_sound s t, λ e. rw e (eq_refl t))

pub eq_false : (s t : Text) → t ≢ s → (s == t) ≡ false
eq_false s t ne = ground (arith, eq_iff s t)

abbrev pub is_empty : Text → Bool
is_empty [] = true
is_empty (_ ∷ _) = false

-- `set.has(s)`, and `xs.includes(s)`
unfoldable pub mem_text : Text → List Text → Bool
mem_text s [] = false
mem_text s (t ∷ ts) = t == s || mem_text s ts

pub mem_text-append :
    (s : Text) (xs ys : List Text) → mem_text s (xs ++ ys) ≡ (mem_text s xs || mem_text s ys)
unfolding mem_text
mem_text-append s [] ys = refl
mem_text-append s (x ∷ xs) ys = ground (arith, mem_text-append s xs ys)

pub mem_text_self : (s : Text) (xs : List Text) → mem_text s (s ∷ xs) ≡ true
unfolding mem_text
mem_text_self s xs = rw (eq_refl s)

-- `set.add(s)`: a set keeps the order of first insertion.
unfoldable pub append_distinct : List Text → Text → List Text
append_distinct seen s = if mem_text s seen then seen else seen ++ (s ∷ [])

unfoldable pub distinct_from : List Text → List Text → List Text
distinct_from seen [] = seen
distinct_from seen (s ∷ ss) = distinct_from (append_distinct seen s) ss

-- `Array.from(new Set(ss))`
unfoldable pub distinct : List Text → List Text
unfolding distinct_from append_distinct
distinct ss = distinct_from [] ss

-- `ss.join(sep)`
unfoldable pub join : Text → List Text → Text
join sep [] = []
join sep (s ∷ []) = s
join sep (s ∷ t ∷ ts) = s ++ (sep ++ join sep (t ∷ ts))

-- `a || b` on texts
abbrev pub or_text : Text → Text → Text
or_text a b = if is_empty a then b else a

-- A property of an object literal or of a parsed object, by its own keys.
unfoldable pub lookup {ℓ} : {V : Type ℓ} → Text → List (Text × V) → Option V
lookup k [] = none
lookup k ((j, v) ∷ m) = if j == k then some v else lookup k m

-- The white space and line terminators that `trim` removes and `\s` matches.
unfoldable pub is_space : ℕ → Bool
is_space c =
    leb 9 c && leb c 13
    || eqb c 32
    || eqb c 0xa0
    || eqb c 0x1680
    || leb 0x2000 c && leb c 0x200a
    || eqb c 0x2028
    || eqb c 0x2029
    || eqb c 0x202f
    || eqb c 0x205f
    || eqb c 0x3000
    || eqb c 0xfeff
