-- ===== src/Theme/Reload.antt =====
-- What a reload of the page makes of the theme and the appearance.
use scan_tls.Common.{Text, Option, Bool, true, some, ◌==◌, ◌≡◌, refl, ◌∙◌, ap}
use scan_tls.Theme.{
  ThemeId, violet, blue, aurora, azure, studio, Appearance, light, dark, system, theme_text,
  appearance_text, theme_of, appearance_of, Look, read_theme, read_appearance, apply_theme,
  apply_appearance, apply_stored_preferences,
}

theme_of-theme_text : (t : ThemeId) → theme_of (theme_text t) ≡ some t
unfolding theme_of ◌==◌
theme_of-theme_text violet = refl
theme_of-theme_text blue = refl
theme_of-theme_text aurora = refl
theme_of-theme_text azure = refl
theme_of-theme_text studio = refl

appearance_of-appearance_text : (a : Appearance) → appearance_of (appearance_text a) ≡ some a
unfolding appearance_of ◌==◌
appearance_of-appearance_text light = refl
appearance_of-appearance_text dark = refl
appearance_of-appearance_text system = refl

read_theme-stored :
    (t : ThemeId) (k : Look) → k.stored_theme ≡ some (theme_text t) → read_theme k ≡ t
unfolding read_theme
read_theme-stored t k e = rw (e, read_theme, theme_of-theme_text t) refl

read_appearance-stored :
    (a : Appearance) (k : Look)
    → k.stored_appearance ≡ some (appearance_text a)
    → read_appearance k ≡ a
unfolding read_appearance
read_appearance-stored a k e = rw (e, read_appearance, appearance_of-appearance_text a) refl

-- Where the storage accepts entries, a page that is loaded again looks as it did after the choice of
-- a palette and an appearance, and its entries are the same, whatever attributes the new document
-- starts with.
pub apply_stored_preferences-applied :
    (prefers_dark : Bool) (t : ThemeId) (a : Appearance) (k : Look) (dt da : Option Text)
    → apply_stored_preferences true prefers_dark
        (record (apply_appearance true prefers_dark (appearance_text a) (apply_theme true t k)) {
          data_theme = dt;
          data_appearance = da;
        })
      ≡ apply_appearance true prefers_dark (appearance_text a) (apply_theme true t k)
unfolding apply_stored_preferences apply_theme apply_appearance
apply_stored_preferences-applied prefers_dark t a k dt da =
    let shown = apply_appearance true prefers_dark (appearance_text a) (apply_theme true t k) in
    let fresh : Look = record shown { data_theme = dt; data_appearance = da } in
    let again : Look = record shown { data_appearance = da } in
    let stays : apply_theme true (read_theme fresh) fresh ≡ again =
      ap (λ u. apply_theme true u fresh) (read_theme-stored t fresh refl) in
    ap (λ m. apply_appearance true prefers_dark (appearance_text (read_appearance m)) m) stays
    ∙ ap (λ b. apply_appearance true prefers_dark (appearance_text b) again)
        (read_appearance-stored a again refl)
