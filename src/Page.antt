-- ===== src/Page.antt =====
-- tls_scanner/exports/assets/html/js/report.js: the drawer of the page (`openEndpoint`,
-- `openHostEndpoints`, `closeDrawer` and the listeners on it) and the link of the navigation that is
-- marked as active (`initNavigation`). What the drawer shows is named by the endpoint or the host; the
-- tables in it are not modelled. Where a section stands on the screen is a parameter.
pub mod Drawer
pub mod Navigation
mod Examples
use scan_tls.Common.{
  Text, str, Bool, true, false, not, List, [], ◌∷◌, ◌++◌, map, Option, none, some, find?, foldl,
  ◌==◌, if◌then◌else◌, Ordering,
}
use scan_tls.Numbers.{Decimal, compare_decimal}
use scan_tls.Report.{Endpoint}

-- What `drawerContent` shows: an endpoint, by its identifier, or a host, by its key.
pub data DrawerContent : Type 0 where
  endpoint : Text → DrawerContent
  host : Text → DrawerContent

-- `open` and `backdrop` are the class `open` of `endpointDrawer` and of `drawerBackdrop`; `hidden` is the
-- attribute `aria-hidden`.
pub record DrawerState : Type 0 where
  pub drawer_open : Bool
  pub hidden : Bool
  pub backdrop : Bool
  pub content : Option DrawerContent

-- the page after loading
abbrev pub closed_drawer : DrawerState
closed_drawer = record { drawer_open = false; hidden = true; backdrop = false; content = none }

-- the last lines of `openEndpoint` and `openHostEndpoints`
abbrev pub show_drawer : DrawerContent → DrawerState
show_drawer c = record { drawer_open = true; hidden = false; backdrop = true; content = some c }

-- `openEndpoint`; an identifier that no endpoint has changes nothing
unfoldable pub open_endpoint : List Endpoint → Text → DrawerState → DrawerState
open_endpoint endpoints id s = elim (find? (λ e. e.endpoint_id == id) endpoints) [
  | none ↦ s
  | some e ↦ show_drawer (endpoint e.endpoint_id)
]

-- `closeDrawer`
unfoldable pub close_drawer : DrawerState → DrawerState
close_drawer s = record s { drawer_open = false; hidden = true; backdrop = false }

-- A call of `openEndpoint` or `openHostEndpoints` by one of the buttons, a click on the button
-- `closeDrawer` or on the backdrop, and a key, Escape or another.
pub data DrawerEvent : Type 0 where
  open_id : Text → DrawerEvent
  open_host : Text → DrawerEvent
  click_close click_backdrop : DrawerEvent
  press_key : Bool → DrawerEvent

unfoldable pub drawer_step : List Endpoint → DrawerState → DrawerEvent → DrawerState
unfolding open_endpoint close_drawer
drawer_step endpoints s (open_id id) = open_endpoint endpoints id s
drawer_step endpoints s (open_host key) = show_drawer (host key)
drawer_step endpoints s click_close = close_drawer s
drawer_step endpoints s click_backdrop = close_drawer s
drawer_step endpoints s (press_key is_escape) = if is_escape then close_drawer s else s

unfoldable pub run_drawer : List Endpoint → DrawerState → List DrawerEvent → DrawerState
run_drawer endpoints s events = foldl (drawer_step endpoints) s events

-- 120
abbrev pub nav_offset : Decimal
nav_offset = record { negative = false; mantissa = 120; scale = 0 }

abbrev pub not_greater : Ordering → Bool
not_greater Ordering.gt = false
not_greater _ = true

-- `section.getBoundingClientRect().top <= 120`
unfoldable pub is_above : (Text → Decimal) → Text → Bool
unfolding compare_decimal
is_above top id = not_greater (compare_decimal (top id) nav_offset)

-- one round of the `reduce` of `setActive`; a section is its identifier
abbrev pub keep_above : (Text → Decimal) → Text → Text → Text
keep_above top active section = if is_above top section then section else active

-- `current` of `setActive`; `none` stands for `undefined`, whose `id` is a TypeError
unfoldable pub current_section : (Text → Decimal) → List Text → Option Text
unfolding is_above
current_section top [] = none
current_section top (first ∷ rest) = some (foldl (keep_above top) first (first ∷ rest))

-- for each link, by its `href`, whether `setActive` gives it the class `active`
unfoldable pub active_links : Text → List Text → List Bool
active_links current links = map (λ href. href == (str "#" ++ current)) links
