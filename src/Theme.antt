-- ===== src/Theme.antt =====
-- frontend/src/theme.ts: the palette and the appearance of the page, and their copies in
-- `localStorage`. Whether the storage accepts an entry and whether the system prefers dark are parameters.
pub mod Reload
mod Examples
use scan_tls.Common.{
  Text, str, Bool, true, false, Option, none, some, ◌==◌, ◌&&◌, ◌||◌, if◌then◌else◌,
}

pub data ThemeId : Type 0 where
  violet blue aurora azure studio : ThemeId

pub data Appearance : Type 0 where
  light dark system : Appearance

abbrev pub theme_text : ThemeId → Text
theme_text violet = str "violet"
theme_text blue = str "blue"
theme_text aurora = str "aurora"
theme_text azure = str "azure"
theme_text studio = str "studio"

abbrev pub appearance_text : Appearance → Text
appearance_text light = str "light"
appearance_text dark = str "dark"
appearance_text system = str "system"

-- `THEMES.includes(v)`, with the theme
unfoldable pub theme_of : Text → Option ThemeId
unfolding ◌==◌
theme_of v =
    if v == str "violet"
    then some violet
    else if v == str "blue"
    then some blue
    else if v == str "aurora"
    then some aurora
    else if v == str "azure"
    then some azure
    else if v == str "studio"
    then some studio
    else none

-- `APPEARANCES.includes(v)`, with the appearance
unfoldable pub appearance_of : Text → Option Appearance
unfolding ◌==◌
appearance_of v =
    if v == str "light"
    then some light
    else if v == str "dark"
    then some dark
    else if v == str "system"
    then some system
    else none

-- The attributes of the document, and the two entries of `localStorage`.
pub record Look : Type 0 where
  pub data_theme : Option Text
  pub data_appearance : Option Text
  pub stored_theme : Option Text
  pub stored_appearance : Option Text

abbrev pub stored_theme_of : Option Text → Option ThemeId
stored_theme_of none = none
stored_theme_of (some v) = theme_of v

abbrev pub stored_appearance_of : Option Text → Option Appearance
stored_appearance_of none = none
stored_appearance_of (some v) = appearance_of v

unfoldable pub read_theme : Look → ThemeId
unfolding theme_of
read_theme k = elim (stored_theme_of k.stored_theme) [ none ↦ violet | some t ↦ t ]

unfoldable pub read_appearance : Look → Appearance
unfolding appearance_of
read_appearance k = elim (stored_appearance_of k.stored_appearance) [ none ↦ system | some a ↦ a ]

abbrev pub is_blue : ThemeId → Bool
is_blue blue = true
is_blue _ = false

-- Only the appearances of the list are applied with a known name; any other text is light.
unfoldable pub is_dark : Bool → Text → Bool
unfolding ◌==◌
is_dark prefers_dark appearance =
    appearance == str "dark" || appearance == str "system" && prefers_dark

unfoldable pub apply_theme : Bool → ThemeId → Look → Look
apply_theme accepts theme k = record k {
  data_theme = if is_blue theme then none else some (theme_text theme);
  stored_theme = if accepts then some (theme_text theme) else k.stored_theme;
}

module _ (accepts prefers_dark : Bool) where
  unfoldable pub apply_appearance : Text → Look → Look
  unfolding is_dark
  apply_appearance appearance k = record k {
    data_appearance = if is_dark prefers_dark appearance then some (str "dark") else none;
    stored_appearance = if accepts then some appearance else k.stored_appearance;
  }

  -- what main.tsx calls when the page loads
  unfoldable pub apply_stored_preferences : Look → Look
  unfolding apply_theme apply_appearance read_theme read_appearance
  apply_stored_preferences k =
      let themed = apply_theme accepts (read_theme k) k in
      apply_appearance (appearance_text (read_appearance themed)) themed
