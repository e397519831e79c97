-- ===== src/I18n/Dictionaries/Agreement.antt =====
-- The texts of the three dictionaries agree: the same keys, well-formed placeholders, and the same
-- names in them, which frontend/src/__tests__/i18n.test.ts asks for too.
use scan_tls.Common.{
  Text, str, ℕ, Bool, true, false, not, List, [], ◌∷◌, ◌++◌, some, lookup, ◌==◌, eq_iff, ◌&&◌, ◌||◌,
  eqb, mem_text, ◌≡◌, refl, sym, ◌∙◌, length, Bool-cases, inl, inr, and-true,
}
use scan_tls.I18n.{Language, fr, en, de}
use scan_tls.I18n.Segments.{Segment, words, hole, unparse}
use scan_tls.I18n.Dictionaries.{dictionary, segments_of, names_of}
use scan_tls.I18n.En.{en_texts, en_1, en_2, en_3, en_4, en_5, en_6, en_7, en_8, en_9, en_10}
use scan_tls.I18n.Fr.{fr_texts, fr_1, fr_2, fr_3, fr_4, fr_5, fr_6, fr_7, fr_8, fr_9, fr_10}
use scan_tls.I18n.De.{de_texts, de_1, de_2, de_3, de_4, de_5, de_6, de_7, de_8, de_9, de_10}

unfoldable pub avoids : ℕ → Text → Bool
avoids c [] = true
avoids c (d ∷ s) = not (eqb d c) && avoids c s

unfoldable pub are_clean : List Segment → Bool
unfolding avoids
are_clean [] = true
are_clean (words s ∷ ss) = avoids b'{' s && are_clean ss
are_clean (hole n ∷ ss) = (avoids b'{' n && avoids b'}' n) && are_clean ss

-- The text is the row of its segments, and they are clean.
unfoldable pub is_well_formed : Text → Bool
unfolding are_clean
is_well_formed text = unparse (segments_of text) == text && are_clean (segments_of text)

unfoldable pub all_in : List Text → List Text → Bool
all_in [] ns = true
all_in (m ∷ ms) ns = mem_text m ns && all_in ms ns

-- the same names, as often together
unfoldable pub same_names : List Text → List Text → Bool
unfolding all_in
same_names ms ns = (all_in ms ns && all_in ns ms) && eqb (length ms) (length ns)

unfoldable pub agree : Text → Text → Bool
unfolding is_well_formed same_names
agree s t =
    (is_well_formed s && is_well_formed t)
    && same_names (names_of (segments_of s)) (names_of (segments_of t))

unfoldable pub no_repeats : List Text → Bool
no_repeats [] = true
no_repeats (n ∷ ns) = not (mem_text n ns) && no_repeats ns

-- The one text that names a placeholder twice.
abbrev pub secret_hint : Text
secret_hint = str "auth.secretHint"

-- The texts of a key agree, and the second does not name a placeholder twice, but for that key.
unfoldable pub entries_agree : Text → Text → Text → Bool
unfolding agree no_repeats
entries_agree key s t = agree s t && (no_repeats (names_of (segments_of t)) || key == secret_hint)

all_agree : List (Text × Text) → List (Text × Text) → Bool
unfolding entries_agree
all_agree [] [] = true
all_agree [] (_ ∷ _) = false
all_agree (_ ∷ _) [] = false
all_agree ((j, s) ∷ a) ((k, t) ∷ b) = (j == k && entries_agree k s t) && all_agree a b

all_agree_part1 :
    (all_agree en_1 en_1 ≡ true) × (all_agree en_1 fr_1 ≡ true) × (all_agree en_1 de_1 ≡ true)
unfolding all_agree en_1 fr_1 de_1 segments_of names_of unparse mem_text ◌==◌
all_agree_part1 = (refl, refl, refl)

all_agree_part2 :
    (all_agree en_2 en_2 ≡ true) × (all_agree en_2 fr_2 ≡ true) × (all_agree en_2 de_2 ≡ true)
unfolding all_agree en_2 fr_2 de_2 segments_of names_of unparse mem_text ◌==◌
all_agree_part2 = (refl, refl, refl)

all_agree_part3 :
    (all_agree en_3 en_3 ≡ true) × (all_agree en_3 fr_3 ≡ true) × (all_agree en_3 de_3 ≡ true)
unfolding all_agree en_3 fr_3 de_3 segments_of names_of unparse mem_text ◌==◌
all_agree_part3 = (refl, refl, refl)

all_agree_part4 :
    (all_agree en_4 en_4 ≡ true) × (all_agree en_4 fr_4 ≡ true) × (all_agree en_4 de_4 ≡ true)
unfolding all_agree en_4 fr_4 de_4 segments_of names_of unparse mem_text ◌==◌
all_agree_part4 = (refl, refl, refl)

all_agree_part5 :
    (all_agree en_5 en_5 ≡ true) × (all_agree en_5 fr_5 ≡ true) × (all_agree en_5 de_5 ≡ true)
unfolding all_agree en_5 fr_5 de_5 segments_of names_of unparse mem_text ◌==◌
all_agree_part5 = (refl, refl, refl)

all_agree_part6 :
    (all_agree en_6 en_6 ≡ true) × (all_agree en_6 fr_6 ≡ true) × (all_agree en_6 de_6 ≡ true)
unfolding all_agree en_6 fr_6 de_6 segments_of names_of unparse mem_text ◌==◌
all_agree_part6 = (refl, refl, refl)

all_agree_part7 :
    (all_agree en_7 en_7 ≡ true) × (all_agree en_7 fr_7 ≡ true) × (all_agree en_7 de_7 ≡ true)
unfolding all_agree en_7 fr_7 de_7 segments_of names_of unparse mem_text ◌==◌
all_agree_part7 = (refl, refl, refl)

all_agree_part8 :
    (all_agree en_8 en_8 ≡ true) × (all_agree en_8 fr_8 ≡ true) × (all_agree en_8 de_8 ≡ true)
unfolding all_agree en_8 fr_8 de_8 segments_of names_of unparse mem_text ◌==◌
all_agree_part8 = (refl, refl, refl)

all_agree_part9 :
    (all_agree en_9 en_9 ≡ true) × (all_agree en_9 fr_9 ≡ true) × (all_agree en_9 de_9 ≡ true)
unfolding all_agree en_9 fr_9 de_9 segments_of names_of unparse mem_text ◌==◌
all_agree_part9 = (refl, refl, refl)

all_agree_part10 :
    (all_agree en_10 en_10 ≡ true) × (all_agree en_10 fr_10 ≡ true) × (all_agree en_10 de_10 ≡ true)
unfolding all_agree en_10 fr_10 de_10 segments_of names_of unparse mem_text ◌==◌
all_agree_part10 = (refl, refl, refl)

all_agree-append :
    (a b c d : List (Text × Text))
    → all_agree a b ≡ true
    → all_agree c d ≡ true
    → all_agree (a ++ c) (b ++ d) ≡ true
unfolding all_agree
all_agree-append [] [] c d h k = k
all_agree-append [] (_ ∷ _) c d h k = cc
all_agree-append (_ ∷ _) [] c d h k = cc
all_agree-append ((j, s) ∷ a) ((i, t) ∷ b) c d h k =
    let (here, there) = and-true (j == i && entries_agree i s t) (all_agree a b) h in
    rw here (all_agree-append a b c d there k)

all_agree_en : all_agree en_texts en_texts ≡ true
unfolding en_texts
all_agree_en = all_agree-append en_1 en_1 _ _ all_agree_part1.0 (
    all_agree-append en_2 en_2 _ _ all_agree_part2.0 (
      all_agree-append en_3 en_3 _ _ all_agree_part3.0 (
        all_agree-append en_4 en_4 _ _ all_agree_part4.0 (
          all_agree-append en_5 en_5 _ _ all_agree_part5.0 (
            all_agree-append en_6 en_6 _ _ all_agree_part6.0 (
              all_agree-append en_7 en_7 _ _ all_agree_part7.0 (
                all_agree-append en_8 en_8 _ _ all_agree_part8.0
                  (all_agree-append en_9 en_9 _ _ all_agree_part9.0 (all_agree_part10.0)))))))))

all_agree_fr : all_agree en_texts fr_texts ≡ true
unfolding en_texts fr_texts
all_agree_fr = all_agree-append en_1 fr_1 _ _ all_agree_part1.1 (
    all_agree-append en_2 fr_2 _ _ all_agree_part2.1 (
      all_agree-append en_3 fr_3 _ _ all_agree_part3.1 (
        all_agree-append en_4 fr_4 _ _ all_agree_part4.1 (
          all_agree-append en_5 fr_5 _ _ all_agree_part5.1 (
            all_agree-append en_6 fr_6 _ _ all_agree_part6.1 (
              all_agree-append en_7 fr_7 _ _ all_agree_part7.1 (
                all_agree-append en_8 fr_8 _ _ all_agree_part8.1
                  (all_agree-append en_9 fr_9 _ _ all_agree_part9.1 (all_agree_part10.1)))))))))

all_agree_de : all_agree en_texts de_texts ≡ true
unfolding en_texts de_texts
all_agree_de = all_agree-append en_1 de_1 _ _ all_agree_part1.2 (
    all_agree-append en_2 de_2 _ _ all_agree_part2.2 (
      all_agree-append en_3 de_3 _ _ all_agree_part3.2 (
        all_agree-append en_4 de_4 _ _ all_agree_part4.2 (
          all_agree-append en_5 de_5 _ _ all_agree_part5.2 (
            all_agree-append en_6 de_6 _ _ all_agree_part6.2 (
              all_agree-append en_7 de_7 _ _ all_agree_part7.2 (
                all_agree-append en_8 de_8 _ _ all_agree_part8.2
                  (all_agree-append en_9 de_9 _ _ all_agree_part9.2 (all_agree_part10.2)))))))))

-- What agreement says of one key.
lookup-agree :
    (a b : List (Text × Text)) (key s : Text)
    → all_agree a b ≡ true
    → lookup key a ≡ some s
    → (t : Text) × (lookup key b ≡ some t) × (entries_agree key s t ≡ true)
unfolding all_agree lookup
lookup-agree [] [] key s h e = cc
lookup-agree [] (_ ∷ _) key s h e = cc
lookup-agree (_ ∷ _) [] key s h e = cc
lookup-agree ((j, u) ∷ a) ((k, t) ∷ b) key s h e =
    let (here, there) = and-true (j == k && entries_agree k u t) (all_agree a b) h in
    let (same, ag) = and-true (j == k) (entries_agree k u t) here in
    let jk : j ≡ k = (eq_iff j k).0 same in
    elim (Bool-cases (j == key)) [
      | inl hit ↦
          let us : some u ≡ some s = rw hit at e in
          let u_s : u ≡ s = cc us in
          let k_key : k ≡ key = sym jk ∙ (eq_iff j key).0 hit in
          (t, rw (← jk, hit) refl, rw (← k_key, ← u_s) ag)
      | inr miss ↦
          let later : lookup key a ≡ some s = rw miss at e in
          let (x, found, good) = lookup-agree a b key s there later in
          (x, rw (← jk, miss) found, good)
    ]

-- Every key of the English dictionary has a text in each dictionary; the two texts are well formed and
-- name the same placeholders, as many of them; and no text but that of `auth.secretHint` names a
-- placeholder twice.
pub dictionary-agree :
    (l : Language) (key s : Text)
    → lookup key en_texts ≡ some s
    → (t : Text) × (lookup key (dictionary l) ≡ some t) × (entries_agree key s t ≡ true)
unfolding dictionary
dictionary-agree fr key s e = lookup-agree en_texts fr_texts key s all_agree_fr e
dictionary-agree en key s e = lookup-agree en_texts en_texts key s all_agree_en e
dictionary-agree de key s e = lookup-agree en_texts de_texts key s all_agree_de e
