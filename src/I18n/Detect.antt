-- ===== src/I18n/Detect.antt =====
-- Which language detectLocale finds, and what setLocale leaves for the next visit.
use scan_tls.Common.{
  Text, true, List, [], ◌∷◌, Option, none, some, ◌==◌, ◌≡◌, refl, flat_map, or_else, arith,
}
use scan_tls.Locale
use scan_tls.I18n.{
  Language, fr, en, de, language_of, Browser, browser_code, known_language, detect_locale, code_of,
  I18nState, set_locale,
}

-- the codes of the languages that are asked for, the most binding first
abbrev pub candidates : Locale.Locale → Browser → Option Text → List (Option Text)
candidates locale b preferred = preferred ∷ b.stored ∷ some (browser_code locale b) ∷ []

-- the languages of the codes that the frontend has, in their order
abbrev pub known_languages : List (Option Text) → List Language
known_languages codes =
    flat_map (λ code. elim (known_language code) [ none ↦ [] | some l ↦ l ∷ [] ]) codes

abbrev pub first_of : List Language → Option Language
first_of [] = none
first_of (l ∷ _) = some l

language_of-code_of : (l : Language) → language_of (code_of l) ≡ some l
unfolding language_of ◌==◌
language_of-code_of fr = refl
language_of-code_of en = refl
language_of-code_of de = refl

-- A language that the user has set, and that the browser has stored, is found again at the next visit,
-- whatever the browser's languages are, unless the profile prefers another that the frontend has.
pub detect_locale-set_locale :
    (locale : Locale.Locale) (b : Browser) (s : I18nState) (l : Language) (preferred : Option Text)
    → known_language preferred ≡ none
    → detect_locale locale (record b { stored = (set_locale true l s).stored }) preferred ≡ l
unfolding detect_locale set_locale
detect_locale-set_locale locale b s l preferred h =
    rw (h, detect_locale, language_of-code_of l) refl

-- detectLocale takes the first language it has among the preferred one, the stored one and the
-- browser's, and English if it has none of them.
detect_locale_lem :
    (locale : Locale.Locale) (b : Browser) (preferred : Option Text)
    → detect_locale locale b preferred
      ≡ or_else (first_of (known_languages (candidates locale b preferred))) en
unfolding detect_locale
detect_locale_lem locale b preferred = ground arith
