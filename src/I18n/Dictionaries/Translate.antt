-- ===== src/I18n/Dictionaries/Translate.antt =====
-- What `t` makes of the dictionaries' texts.
use mathlib.Core.Path.{subst}
use scan_tls.Common.{
  Text, str, ℕ, true, false, List, [], ◌∷◌, ◌++◌, map, some, lookup, ◌==◌, eq_iff, eq_false, ◌&&◌,
  ◌||◌, eqb, mem_text, if◌then◌else◌, ◌≡◌, ◌≢◌, refl, sym, ap, ◌∙◌, All, All-append, arith,
  Bool-cases, inl, inr, and-true,
}
use scan_tls.Hosts.{includes, starts_with}
use scan_tls.I18n.{Language, fr, en, de, placeholder, fill, fill_all}
use scan_tls.I18n.Segments.{
  Segment, words, hole, unparse, IsClean, Avoids, fill_first, replace_from-unparse,
}
use scan_tls.I18n.En.{en_texts, en_1}
use scan_tls.I18n.Fr.{fr_texts, fr_1}
use scan_tls.I18n.De.{de_texts, de_1}
use scan_tls.I18n.Dictionaries.{dictionary, segments_of, names_of, text_of, translate}
use scan_tls.I18n.Dictionaries.Agreement.{
  avoids, are_clean, is_well_formed, all_in, same_names, agree, no_repeats, entries_agree,
  secret_hint, dictionary-agree,
}

-- A pair of a name and a value that `t` fills in literally.
abbrev pub IsPlain : Text × Text → Type 0
IsPlain (name, value) = Avoids b'}' name × Avoids b'{' value × Avoids b'$' value

abbrev pub fill_segments : List (Text × Text) → List Segment → List Segment
fill_segments [] ss = ss
fill_segments ((name, value) ∷ vars) ss = fill_segments vars (fill_first name value ss)

pub avoids_sound : (c : ℕ) (s : Text) → avoids c s ≡ true → Avoids c s
unfolding avoids
avoids_sound c [] h = tt
avoids_sound c (d ∷ s) h = (ground arith, avoids_sound c s (ground arith))

are_clean_sound : (ss : List Segment) → are_clean ss ≡ true → All IsClean ss
unfolding are_clean
are_clean_sound [] h = tt
are_clean_sound (words s ∷ ss) h =
    let (here, there) = and-true (avoids b'{' s) (are_clean ss) h in
    (avoids_sound b'{' s here, are_clean_sound ss there)
are_clean_sound (hole n ∷ ss) h =
    let (here, there) = and-true (avoids b'{' n && avoids b'}' n) (are_clean ss) h in
    let (o, c) = and-true (avoids b'{' n) (avoids b'}' n) here in
    ((avoids_sound b'{' n o, avoids_sound b'}' n c), are_clean_sound ss there)

fill_first-IsClean :
    (name value : Text) (ss : List Segment)
    → Avoids b'{' value
    → All IsClean ss
    → All IsClean (fill_first name value ss)
unfolding fill_first
fill_first-IsClean name value [] v h = tt
fill_first-IsClean name value (words s ∷ ss) v (c, h) = (c, fill_first-IsClean name value ss v h)
fill_first-IsClean name value (hole n ∷ ss) v (c, h) = elim (Bool-cases (n == name)) [
  | inl same ↦ rw same (v, h)
  | inr other ↦ rw other (c, fill_first-IsClean name value ss v h)
]

-- Filling a text is filling its segments.
fill_all-unparse :
    (vars : List (Text × Text)) (ss : List Segment)
    → All IsPlain vars
    → All IsClean ss
    → fill_all vars (unparse ss) ≡ unparse (fill_segments vars ss)
unfolding fill
fill_all-unparse [] ss p c = refl
fill_all-unparse ((name, value) ∷ vars) ss ((n, v, d), p) c =
    ap (fill_all vars) (replace_from-unparse [] name value ss n d c)
    ∙ fill_all-unparse vars (fill_first name value ss) p (fill_first-IsClean name value ss v c)

well_formed_sound :
    (t : Text)
    → is_well_formed t ≡ true
    → (unparse (segments_of t) ≡ t) × All IsClean (segments_of t)
unfolding is_well_formed
well_formed_sound t h =
    let (same, clean) = and-true _ _ h in
    ((eq_iff (unparse (segments_of t)) t).0 same, are_clean_sound (segments_of t) clean)

-- What agreement says of one pair of texts.
entries_agree_sound :
    (key s t : Text)
    → entries_agree key s t ≡ true
    → (is_well_formed t ≡ true)
      × (all_in (names_of (segments_of t)) (names_of (segments_of s)) ≡ true)
      × ((no_repeats (names_of (segments_of t)) || key == secret_hint) ≡ true)
unfolding entries_agree agree same_names
entries_agree_sound key s t h =
    let (ag, once) = and-true (agree s t) _ h in
    let (formed, same) = and-true (is_well_formed s && is_well_formed t) _ ag in
    let (both, number) = and-true _ (eqb _ _) same in
    let (there, back) = and-true _ _ both in ((and-true (is_well_formed s) _ formed).1, back, once)

text_of-known :
    (l : Language) (key t : Text) → lookup key (dictionary l) ≡ some t → text_of l key ≡ t
unfolding text_of
text_of-known l key t e = rw (e, text_of) refl

-- What the texts of a known key are.
known_text :
    (l : Language) (key s : Text)
    → lookup key en_texts ≡ some s
    → (unparse (segments_of (text_of l key)) ≡ text_of l key)
      × All IsClean (segments_of (text_of l key))
      × (all_in (names_of (segments_of (text_of l key))) (names_of (segments_of s)) ≡ true)
      × ((no_repeats (names_of (segments_of (text_of l key))) || key == secret_hint) ≡ true)
known_text l key s known =
    let (t, found, ag) = dictionary-agree l key s known in
    let (formed, names, once) = entries_agree_sound key s t ag in
    let (same, clean) = well_formed_sound t formed in
    rw (text_of-known l key t found) (same, clean, names, once)

-- `t` is the filling of the segments of the language's text, for a key of the dictionaries and values
-- that are taken literally.
pub translate-unparse :
    (l : Language) (key s : Text) (vars : List (Text × Text))
    → lookup key en_texts ≡ some s
    → All IsPlain vars
    → translate l key vars ≡ unparse (fill_segments vars (segments_of (text_of l key)))
unfolding translate
translate-unparse l key s vars known plain =
    let (same, clean, _, _) = known_text l key s known in
    ap (fill_all vars) (sym same) ∙ fill_all-unparse vars (segments_of (text_of l key)) plain clean

-- `t` without the first of its name
erase : Text → List Text → List Text
erase n [] = []
erase n (m ∷ ms) = if m == n then ms else m ∷ erase n ms

names_of-fill_first :
    (name value : Text) (ss : List Segment)
    → names_of (fill_first name value ss) ≡ erase name (names_of ss)
unfolding fill_first names_of erase
names_of-fill_first name value [] = refl
names_of-fill_first name value (words s ∷ ss) = names_of-fill_first name value ss
names_of-fill_first name value (hole n ∷ ss) = ground (arith, names_of-fill_first name value ss)

mem_text-erase :
    (x n : Text) (ms : List Text) → mem_text x ms ≡ false → mem_text x (erase n ms) ≡ false
unfolding mem_text erase
mem_text-erase x n [] h = refl
mem_text-erase x n (m ∷ ms) h = ground (arith, mem_text-erase x n ms)

no_repeats-erase :
    (n : Text) (ms : List Text) → no_repeats ms ≡ true → no_repeats (erase n ms) ≡ true
unfolding no_repeats erase
no_repeats-erase n [] h = refl
no_repeats-erase n (m ∷ ms) h = ground (arith, no_repeats-erase n ms, mem_text-erase m n ms)

all_in-without :
    (n : Text) (ms ns : List Text)
    → mem_text n ms ≡ false
    → all_in ms (n ∷ ns) ≡ true
    → all_in ms ns ≡ true
unfolding all_in mem_text
all_in-without n [] ns h k = refl
all_in-without n (m ∷ ms) ns h k = ground (arith, all_in-without n ms ns, eq_iff n m, eq_iff m n)

all_in-erase :
    (n : Text) (ms ns : List Text)
    → no_repeats ms ≡ true
    → all_in ms (n ∷ ns) ≡ true
    → all_in (erase n ms) ns ≡ true
unfolding all_in no_repeats erase mem_text
all_in-erase n [] ns h k = refl
all_in-erase n (m ∷ ms) ns h k =
    ground (arith, all_in-erase n ms ns, all_in-without n ms ns, eq_iff n m, eq_iff m n)

mem_text-of_all_in :
    (x : Text) (ms ns : List Text)
    → mem_text x ms ≡ true
    → all_in ms ns ≡ true
    → mem_text x ns ≡ true
unfolding all_in mem_text
mem_text-of_all_in x [] ns h k = cc
mem_text-of_all_in x (m ∷ ms) ns h k = elim (Bool-cases (m == x)) [
  | inl same ↦
      subst (λ y. mem_text y ns ≡ true) ((eq_iff m x).0 same) (and-true (mem_text m ns) _ k).0
  | inr other ↦ mem_text-of_all_in x ms ns (rw other at h) (and-true (mem_text m ns) _ k).1
]

all_in_trans :
    (ks ms ns : List Text) → all_in ks ms ≡ true → all_in ms ns ≡ true → all_in ks ns ≡ true
unfolding all_in
all_in_trans [] ms ns h k = refl
all_in_trans (x ∷ ks) ms ns h k =
    let (here, there) = and-true (mem_text x ms) (all_in ks ms) h in
    rw (mem_text-of_all_in x ms ns here k) (all_in_trans ks ms ns there k)

-- Each name has a value, so no placeholder is left.
all_in-nil : (ms : List Text) → all_in ms [] ≡ true → ms ≡ []
unfolding all_in mem_text
all_in-nil [] h = refl
all_in-nil (m ∷ ms) h = cc

fill_segments-names :
    (vars : List (Text × Text)) (ss : List Segment)
    → no_repeats (names_of ss) ≡ true
    → all_in (names_of ss) (map (λ v. v.0) vars) ≡ true
    → names_of (fill_segments vars ss) ≡ []
fill_segments-names [] ss h k = all_in-nil (names_of ss) k
fill_segments-names ((name, value) ∷ vars) ss h k =
    fill_segments-names vars (fill_first name value ss)
      (rw (names_of-fill_first name value ss) (no_repeats-erase name (names_of ss) h))
      (rw (names_of-fill_first name value ss)
        (all_in-erase name (names_of ss) (map (λ v. v.0) vars) h k))

fill_segments-IsClean :
    (vars : List (Text × Text)) (ss : List Segment)
    → All IsPlain vars
    → All IsClean ss
    → All IsClean (fill_segments vars ss)
fill_segments-IsClean [] ss p c = c
fill_segments-IsClean ((name, value) ∷ vars) ss ((n, v, d), p) c =
    fill_segments-IsClean vars (fill_first name value ss) p (fill_first-IsClean name value ss v c)

unparse-Avoids : (ss : List Segment) → All IsClean ss → names_of ss ≡ [] → Avoids b'{' (unparse ss)
unfolding unparse names_of
unparse-Avoids [] c e = tt
unparse-Avoids (words s ∷ ss) (h, c) e = All-append _ s (unparse ss) h (unparse-Avoids ss c e)
unparse-Avoids (hole n ∷ ss) c e = cc

-- No brace opens in what `t` gives, if every placeholder of the English text has a value and the values
-- are literal.
pub translate-Avoids :
    (l : Language) (key s : Text) (vars : List (Text × Text))
    → lookup key en_texts ≡ some s
    → key ≢ secret_hint
    → all_in (names_of (segments_of s)) (map (λ v. v.0) vars) ≡ true
    → All IsPlain vars
    → Avoids b'{' (translate l key vars)
translate-Avoids l key s vars known other given plain =
    let (_, clean, names, once) = known_text l key s known in
    let ss = segments_of (text_of l key) in
    let distinct : no_repeats (names_of ss) ≡ true = ground (arith, eq_false key secret_hint) in
    rw (translate-unparse l key s vars known plain) (
      unparse-Avoids (fill_segments vars ss) (fill_segments-IsClean vars ss plain clean) (
        fill_segments-names vars ss distinct (
          all_in_trans (names_of ss) (names_of (segments_of s)) (map (λ v. v.0) vars) names given)))

starts_with-nil : (s : Text) → starts_with s [] ≡ true
unfolding starts_with
starts_with-nil s = refl

starts_with-append : (p rest : Text) → starts_with (p ++ rest) p ≡ true
unfolding starts_with
starts_with-append [] rest = starts_with-nil rest
starts_with-append (c ∷ p) rest = ground (arith, starts_with-append p rest)

includes-append : (s t q : Text) → includes t q ≡ true → includes (s ++ t) q ≡ true
unfolding includes
includes-append [] t q h = h
includes-append (c ∷ s) t q h = ground (arith, includes-append s t q h)

includes_here : (c : ℕ) (s q : Text) → starts_with (c ∷ s) q ≡ true → includes (c ∷ s) q ≡ true
unfolding includes
includes_here c s q h = rw h refl

-- A placeholder that is left is read in the text.
includes-placeholder :
    (name : Text) (ss : List Segment)
    → mem_text name (names_of ss) ≡ true
    → includes (unparse ss) (placeholder name) ≡ true
unfolding names_of unparse mem_text
includes-placeholder name [] h = cc
includes-placeholder name (words s ∷ ss) h =
    includes-append s (unparse ss) (placeholder name) (includes-placeholder name ss h)
includes-placeholder name (hole n ∷ ss) h = elim (Bool-cases (n == name)) [
  | inl same ↦
      subst (λ m. includes (placeholder m ++ unparse ss) (placeholder name) ≡ true)
        (sym ((eq_iff n name).0 same))
        (includes_here b'{' _ (placeholder name)
          (starts_with-append (placeholder name) (unparse ss)))
  | inr other ↦
      includes-append (placeholder n) (unparse ss) (placeholder name)
        (includes-placeholder name ss (rw other at h))
]

variable-Avoids : Avoids b'}' (str "variable")
variable-Avoids = ground arith

secret_hint_names :
    (l : Language)
    → (s : Text) × (lookup secret_hint en_texts ≡ some s)
      × (names_of (segments_of (text_of l secret_hint)) ≡ str "variable" ∷ str "variable" ∷ [])
unfolding lookup en_texts text_of dictionary fr_texts de_texts ◌==◌ names_of segments_of en_1 fr_1
    de_1
secret_hint_names en = (_, refl, refl)
secret_hint_names fr = (_, refl, refl)
secret_hint_names de = (_, refl, refl)

erase_variable :
    mem_text (str "variable") (erase (str "variable") (str "variable" ∷ str "variable" ∷ [])) ≡ true
unfolding mem_text erase ◌==◌
erase_variable = refl

-- `auth.secretHint` names `{variable}` twice in each language, and `t` fills the first only: the second
-- is still read in the result, whatever the value.
pub translate-secret_hint :
    (l : Language) (value : Text)
    → Avoids b'{' value
    → Avoids b'$' value
    → includes
        (translate l secret_hint ((str "variable", value) ∷ []))
        (placeholder (str "variable"))
      ≡ true
translate-secret_hint l value o d =
    let (s, known, twice) = secret_hint_names l in
    let ss = segments_of (text_of l secret_hint) in
    rw
      (translate-unparse l secret_hint s ((str "variable", value) ∷ []) known
        ((variable-Avoids, o, d), tt))
      (includes-placeholder (str "variable") (fill_first (str "variable") value ss)
        (rw (names_of-fill_first (str "variable") value ss, twice) erase_variable))
