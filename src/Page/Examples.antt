-- ===== src/Page/Examples.antt =====
-- Runs of the drawer and of the navigation, and their theorems at concrete inputs.
use scan_tls.Common.{Text, str, true, false, List, [], ◌∷◌, some, ◌==◌, ◌≡◌, refl}
use scan_tls.Numbers.{Decimal}
use scan_tls.Report.Samples.{endpoints}
use scan_tls.Page.{
  endpoint, closed_drawer, show_drawer, open_id, open_host, click_backdrop, press_key, run_drawer,
  drawer_step, current_section, active_links,
}
use scan_tls.Page.Drawer.{IsDrawer, run_drawer-IsDrawer}
use scan_tls.Page.Navigation.{IsCurrent, current_section-IsCurrent}

run_drawer-IsDrawer_example : IsDrawer endpoints (
    run_drawer endpoints closed_drawer
      (open_id (str "e3") ∷ press_key true ∷ open_host (str "a.example") ∷ open_id (str "e9") ∷ []))
run_drawer-IsDrawer_example =
    run_drawer-IsDrawer endpoints
      (open_id (str "e3") ∷ press_key true ∷ open_host (str "a.example") ∷ open_id (str "e9") ∷ [])

open_id-runs :
    run_drawer endpoints closed_drawer (click_backdrop ∷ open_id (str "e3") ∷ [])
    ≡ show_drawer (endpoint (str "e3"))
unfolding run_drawer drawer_step ◌==◌
open_id-runs = refl

-- the sections of a page that is scrolled to the findings
abbrev sections : List Text
sections = str "charts" ∷ str "findings" ∷ str "certificates" ∷ []

abbrev top : Text → Decimal
top id = elim (id == str "certificates") [
  | true ↦ record { negative = false; mantissa = 800; scale = 0 }
  | false ↦ record { negative = true; mantissa = 5; scale = 1 }
]

current_section-IsCurrent_example :
    (current : Text) × (current_section top sections ≡ some current)
    × IsCurrent top sections current
current_section-IsCurrent_example = current_section-IsCurrent top sections (λ e. cc)

findings-current : current_section top sections ≡ some (str "findings")
unfolding current_section ◌==◌
findings-current = refl

findings-active :
    active_links (str "findings") (str "#charts" ∷ str "#findings" ∷ []) ≡ false ∷ true ∷ []
unfolding active_links ◌==◌
findings-active = refl
