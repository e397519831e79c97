-- ===== src/I18n.antt =====
-- frontend/src/i18n/index.tsx: the choice of the language, and `t`, which looks a text up and fills its
-- placeholders. The dictionaries are in I18n/En, I18n/Fr and I18n/De. What the browser says
-- (`localStorage`, `navigator`) is a parameter.
pub mod Segments
pub mod Detect
pub mod En
pub mod Fr
pub mod De
pub mod Dictionaries
mod Examples
use scan_tls.Common.{
  Text, str, ℕ, suc, zero, Bool, true, false, List, [], ◌∷◌, ◌++◌, Option, none, some, or_else,
  lookup, ◌==◌, eqb, is_empty, length, take, foldl, if◌then◌else◌,
}
use scan_tls.Locale
use scan_tls.Hosts.{starts_with}

-- `Locale`
pub data Language : Type 0 where
  fr en de : Language

-- `LOCALES.includes(code)`, with the language
unfoldable pub language_of : Text → Option Language
unfolding ◌==◌
language_of code = elim (code == str "fr") [
  | true ↦ some fr
  | false ↦ elim (code == str "en") [
    | true ↦ some en
    | false ↦ elim (code == str "de") [ true ↦ some de | false ↦ none ]
  ]
]

-- What the browser says: the stored choice (`none` where `localStorage` throws or has none),
-- `navigator.languages?.[0]` and `navigator.language`.
pub record Browser : Type 0 where
  pub stored : Option Text
  pub first_language : Option Text
  pub language : Option Text

-- `a ?? b`
abbrev pub coalesce : Option Text → Option Text → Option Text
coalesce none b = b
coalesce (some a) b = some a

-- the two letters of the browser's language
unfoldable pub browser_code : Locale.Locale → Browser → Text
browser_code locale b =
    locale.lower (take 2 (or_else (coalesce b.first_language b.language) (str "en")))

-- the language of a code that may be missing
abbrev pub known_language : Option Text → Option Language
known_language none = none
known_language (some code) = language_of code

-- `detectLocale`
unfoldable pub detect_locale : Locale.Locale → Browser → Option Text → Language
unfolding language_of browser_code
detect_locale locale b preferred = elim (known_language preferred) [
  | some l ↦ l
  | none ↦ elim (known_language b.stored) [
    | some l ↦ l
    | none ↦ or_else (language_of (browser_code locale b)) en
  ]
]

-- a locale as the source spells it
abbrev pub code_of : Language → Text
code_of fr = str "fr"
code_of en = str "en"
code_of de = str "de"

-- What a choice of the language changes: the provider's state, the entry of `localStorage` and the
-- `lang` of the document.
pub record I18nState : Type 0 where
  pub locale : Language
  pub stored : Option Text
  pub document_lang : Text

-- `setLocale`; `accepts` says whether `localStorage.setItem` does not throw
unfoldable pub set_locale : Bool → Language → I18nState → I18nState
set_locale accepts l s = record {
  locale = l;
  stored = if accepts then some (code_of l) else s.stored;
  document_lang = code_of l;
}

abbrev pub drop : ℕ → Text → Text
drop zero s = s
drop (suc n) [] = []
drop (suc n) (c ∷ s) = drop n s

-- What `replace` makes of its second argument: `$$`, `$&`, `` $` `` and `$'` stand for a dollar, the
-- match, and what is before and behind it.
unfoldable pub expand : Text → Text → Text → Text → Text
expand matched before after [] = []
expand matched before after (c ∷ []) = c ∷ []
expand matched before after (c ∷ d ∷ s) = elim (eqb c b'$') [
  | false ↦ c ∷ expand matched before after (d ∷ s)
  | true ↦ elim (eqb d b'$') [
    | true ↦ b'$' ∷ expand matched before after s
    | false ↦ elim (eqb d b'&') [
      | true ↦ matched ++ expand matched before after s
      | false ↦ elim (eqb d 96) [
        | true ↦ before ++ expand matched before after s
        | false ↦ elim (eqb d 39) [
          | true ↦ after ++ expand matched before after s
          | false ↦ c ∷ expand matched before after (d ∷ s)
        ]
      ]
    ]
  ]
]

-- `text.replace(pattern, value)` for a pattern that is a text and not empty, behind `before`
unfoldable pub replace_from : Text → Text → Text → Text → Text
unfolding expand starts_with
replace_from before pattern value [] = before
replace_from before pattern value (c ∷ s) = elim (starts_with (c ∷ s) pattern) [
  | true ↦
      let after = drop (length pattern) (c ∷ s) in
      before ++ (expand pattern before after value ++ after)
  | false ↦ replace_from (before ++ c ∷ []) pattern value s
]

-- `{${name}}`
abbrev pub placeholder : Text → Text
placeholder name = b'{' ∷ (name ++ b'}' ∷ [])

-- one round of the loop of `t`
unfoldable pub fill : Text → Text × Text → Text
unfolding replace_from
fill text (name, value) = replace_from [] (placeholder name) value text

abbrev pub fill_all : List (Text × Text) → Text → Text
fill_all vars text = foldl fill text vars
