-- ===== src/I18n/Examples.antt =====
-- Runs of the choice of the language and of `t`, and their theorems at concrete inputs.
use scan_tls.Common.{
  All, Text, str, true, List, [], ◌∷◌, none, some, lookup, ◌==◌, ◌≡◌, ◌≢◌, refl, arith, map,
  mem_text,
}
use scan_tls.Locale.{plain_locale}
use scan_tls.Hosts.{includes}
use scan_tls.I18n.{fr, en, de, Browser, detect_locale, set_locale, I18nState, placeholder, fill}
use scan_tls.I18n.Detect.{detect_locale-set_locale}
use scan_tls.I18n.En.{en_texts, en_1, en_2}
use scan_tls.I18n.Segments.{Avoids, unparse}
use scan_tls.I18n.Dictionaries.{translate, text_of, segments_of, names_of, dictionary}
use scan_tls.I18n.Dictionaries.Agreement.{all_in, entries_agree, secret_hint, dictionary-agree}
use scan_tls.I18n.Dictionaries.Translate.{
  IsPlain, fill_segments, translate-unparse, translate-Avoids, translate-secret_hint,
}

abbrev french_browser : Browser
french_browser = record {
  stored = none;
  first_language = some (str "fr-CH");
  language = some (str "de");
}

abbrev spanish_browser : Browser
spanish_browser = record {
  stored = some (str "es");
  first_language = none;
  language = some (str "ES");
}

abbrev settings : I18nState
settings = record { locale = en; stored = none; document_lang = str "en" }

detect_french : detect_locale plain_locale french_browser none ≡ fr
unfolding detect_locale ◌==◌
detect_french = refl

detect_unknown : detect_locale plain_locale spanish_browser (some (str "es")) ≡ en
unfolding detect_locale ◌==◌
detect_unknown = refl

detect_locale-set_locale_example :
    detect_locale plain_locale
      (record french_browser { stored = (set_locale true de settings).stored })
      none
    ≡ de
detect_locale-set_locale_example =
    detect_locale-set_locale plain_locale french_browser settings de none refl

-- A value with `$&` puts the placeholder back.
fill_dollar : fill (str "a {x} b") (str "x", str "<$&>") ≡ str "a <{x}> b"
unfolding fill
fill_dollar = refl

abbrev endpoints_text : Text
endpoints_text = str "Endpoints: +{added} / -{removed}"

abbrev endpoints_key : Text
endpoints_key = str "evo.endpoints"

abbrev changes : List (Text × Text)
changes = (str "removed", str "2") ∷ (str "added", str "14") ∷ []

endpoints_known : lookup endpoints_key en_texts ≡ some endpoints_text
unfolding lookup ◌==◌ en_texts en_1 en_2
endpoints_known = refl

-- The example's values are literal.
changes-IsPlain : All IsPlain changes
changes-IsPlain = ground arith

changes_given : all_in (names_of (segments_of endpoints_text)) (map (λ v. v.0) changes) ≡ true
unfolding all_in names_of segments_of mem_text ◌==◌
changes_given = refl

translate-unparse_example :
    translate de endpoints_key changes
    ≡ unparse (fill_segments changes (segments_of (text_of de endpoints_key)))
translate-unparse_example =
    translate-unparse de endpoints_key endpoints_text changes endpoints_known changes-IsPlain

endpoints_other : endpoints_key ≢ secret_hint
endpoints_other h = cc h

translate-Avoids_example : Avoids b'{' (translate fr endpoints_key changes)
translate-Avoids_example =
    translate-Avoids fr endpoints_key endpoints_text changes endpoints_known endpoints_other
      changes_given changes-IsPlain

translate-secret_hint_example :
    includes
      (translate fr secret_hint ((str "variable", str "TLS_LDAP_SECRET") ∷ []))
      (placeholder (str "variable"))
    ≡ true
translate-secret_hint_example =
    translate-secret_hint fr (str "TLS_LDAP_SECRET") (ground arith) (ground arith)

dictionary-agree_example :
    (t : Text) × (lookup endpoints_key (dictionary de) ≡ some t)
    × (entries_agree endpoints_key endpoints_text t ≡ true)
dictionary-agree_example = dictionary-agree de endpoints_key endpoints_text endpoints_known

-- In the English text the second placeholder stays.
secret_hint_text :
    translate en secret_hint ((str "variable", str "X") ∷ [])
    ≡ str "The secret is never stored here: set the server variable X (or {variable}_FILE)."
unfolding translate text_of fill dictionary en_texts en_1 lookup ◌==◌
secret_hint_text = refl
