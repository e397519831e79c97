-- ===== src/Theme/Examples.antt =====
-- Runs of the theme, and its theorem at a concrete input.
use scan_tls.Common.{true, false, none, ◌≡◌, refl}
use scan_tls.Theme.{
  aurora, dark, Look, apply_theme, apply_appearance, appearance_text, apply_stored_preferences,
  read_theme, violet,
}
use scan_tls.Theme.Reload.{apply_stored_preferences-applied}

abbrev fresh : Look
fresh = record {
  data_theme = none;
  data_appearance = none;
  stored_theme = none;
  stored_appearance = none;
}

fresh_theme : read_theme fresh ≡ violet
unfolding read_theme
fresh_theme = refl

-- the document that index.html gives has no attributes
apply_stored_preferences-applied_example :
    apply_stored_preferences true false
      (record (apply_appearance true false (appearance_text dark) (apply_theme true aurora fresh)) {
        data_theme = none;
        data_appearance = none;
      })
    ≡ apply_appearance true false (appearance_text dark) (apply_theme true aurora fresh)
apply_stored_preferences-applied_example =
    apply_stored_preferences-applied false aurora dark fresh none none
