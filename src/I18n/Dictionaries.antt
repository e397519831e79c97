-- ===== src/I18n/Dictionaries.antt =====
-- The three dictionaries together: `t`, and the check of their texts.
pub mod Agreement
pub mod Translate
use scan_tls.Common.{
  Text, Bool, true, false, not, List, [], ◌∷◌, ◌++◌, Option, none, some, or_else, lookup, ◌==◌,
  ◌&&◌, ◌||◌, eqb, map, mem_text, if◌then◌else◌,
}
use scan_tls.I18n.{Language, fr, en, de, fill_all}
use scan_tls.I18n.Segments.{Segment, words, hole, unparse}
use scan_tls.I18n.En.{en_texts}
use scan_tls.I18n.Fr.{fr_texts}
use scan_tls.I18n.De.{de_texts}

-- `dictionaries`
unfoldable pub dictionary : Language → List (Text × Text)
dictionary fr = fr_texts
dictionary en = en_texts
dictionary de = de_texts

-- `dictionaries[locale][key] ?? en[key] ?? String(key)`
unfoldable pub text_of : Language → Text → Text
text_of l key = elim (lookup key (dictionary l)) [
  | some text ↦ text
  | none ↦ or_else (lookup key en_texts) key
]

-- `t`; `vars` are the entries of the object, each value as `String` gives it
unfoldable pub translate : Language → Text → List (Text × Text) → Text
unfolding text_of
translate l key vars = fill_all vars (text_of l key)

-- The segments of a text, by its braces: `inside` says that a brace is open.
unfoldable pub segments_from : Bool → Text → Text → List Segment
segments_from inside acc [] = words acc ∷ []
segments_from false acc (c ∷ s) = elim (eqb c b'{') [
  | true ↦ words acc ∷ segments_from true [] s
  | false ↦ segments_from false (acc ++ c ∷ []) s
]
segments_from true acc (c ∷ s) = elim (eqb c b'}') [
  | true ↦ hole acc ∷ segments_from false [] s
  | false ↦ segments_from true (acc ++ c ∷ []) s
]

unfoldable pub segments_of : Text → List Segment
unfolding segments_from
segments_of text = segments_from false [] text

-- the names of the placeholders, in the order of their places
unfoldable pub names_of : List Segment → List Text
names_of [] = []
names_of (words s ∷ ss) = names_of ss
names_of (hole n ∷ ss) = n ∷ names_of ss
