-- ===== src/Table/Menu.antt =====
-- tls_scanner/exports/assets/html/js/report.js: the one open column menu of the page, `openMenu`,
-- with `closeMenu`, `toggleMenu` and the listeners that close it. A trigger is a column's button,
-- numbered over all tables; `expanded` is its attribute `aria-expanded`. Where the menu stands on
-- the screen is not modelled.
use scan_tls.Common.{
  ℕ, Bool, true, false, Option, none, some, List, [], ◌∷◌, eqb, if◌then◌else◌, ◌≡◌, refl, arith,
  foldl,
}

pub record MenuState : Type 0 where
  pub open_menu : Option ℕ
  pub expanded : ℕ → Bool

abbrev pub set_expanded : (ℕ → Bool) → ℕ → Bool → ℕ → Bool
set_expanded expanded trigger value t = if eqb t trigger then value else expanded t

-- whether the open menu is that of the trigger
pub is_open : MenuState → ℕ → Bool
is_open s t = elim s.open_menu [ none ↦ false | some u ↦ eqb t u ]

-- `closeMenu`
unfoldable pub close_menu : MenuState → MenuState
close_menu s = elim s.open_menu [
  | none ↦ s
  | some t ↦ record { open_menu = none; expanded = set_expanded s.expanded t false }
]

-- `toggleMenu`
unfoldable pub toggle_menu : ℕ → MenuState → MenuState
unfolding is_open close_menu
toggle_menu t s =
    let closed = close_menu s in
    if is_open s t
    then closed
    else record { open_menu = some t; expanded = set_expanded closed.expanded t true }

-- A click on a trigger; a press of the mouse, inside the menu or its trigger or not; the key Escape
-- or another; scrolling, resizing; and an entry that sorts, which closes the menu.
pub data MenuEvent : Type 0 where
  click : ℕ → MenuEvent
  mouse_down : Bool → MenuEvent
  key_down : Bool → MenuEvent
  scroll resize choose : MenuEvent

unfoldable pub menu_step : MenuState → MenuEvent → MenuState
unfolding toggle_menu
menu_step s (click t) = toggle_menu t s
menu_step s (mouse_down inside) = if inside then s else close_menu s
menu_step s (key_down is_escape) = if is_escape then close_menu s else s
menu_step s scroll = close_menu s
menu_step s resize = close_menu s
menu_step s choose = close_menu s

unfoldable pub run_menu : MenuState → List MenuEvent → MenuState
run_menu s events = foldl menu_step s events

-- the page after loading
abbrev pub no_menu : MenuState
no_menu = record { open_menu = none; expanded = λ t. false }

-- A trigger says that it is expanded exactly if its menu is the open one.
abbrev pub IsConsistent : MenuState → Type 0
IsConsistent s = (t : ℕ) → s.expanded t ≡ is_open s t

close_menu-IsConsistent : (s : MenuState) → IsConsistent s → IsConsistent (close_menu s)
unfolding close_menu is_open
close_menu-IsConsistent s h t = ground (arith, h t)

toggle_menu-IsConsistent :
    (s : MenuState) (trigger : ℕ) → IsConsistent s → IsConsistent (toggle_menu trigger s)
unfolding toggle_menu
toggle_menu-IsConsistent s trigger h t = ground (arith, h t)

menu_step-IsConsistent :
    (s : MenuState) (e : MenuEvent) → IsConsistent s → IsConsistent (menu_step s e)
unfolding menu_step
menu_step-IsConsistent s (click t) h = toggle_menu-IsConsistent s t h
menu_step-IsConsistent s (mouse_down true) h = h
menu_step-IsConsistent s (key_down false) h = h
menu_step-IsConsistent s _ h = close_menu-IsConsistent s h

run_menu-IsConsistent_from :
    (events : List MenuEvent) (s : MenuState) → IsConsistent s → IsConsistent (run_menu s events)
unfolding run_menu
run_menu-IsConsistent_from [] s h = h
run_menu-IsConsistent_from (e ∷ events) s h =
    run_menu-IsConsistent_from events (menu_step s e) (menu_step-IsConsistent s e h)

-- After any events on a fresh page, a trigger is marked as expanded exactly if its menu is the one
-- that is open; so at most one is.
pub run_menu-IsConsistent : (events : List MenuEvent) → IsConsistent (run_menu no_menu events)
unfolding is_open
run_menu-IsConsistent events = run_menu-IsConsistent_from events no_menu (λ t. refl)

-- A click on a trigger opens its menu if it was not open, whichever other was, and closes it if it
-- was.
pub open_menu-click :
    (s : MenuState) (t : ℕ)
    → (menu_step s (click t)).open_menu ≡ (if is_open s t then none else some t)
unfolding menu_step
open_menu-click s t = ground arith
