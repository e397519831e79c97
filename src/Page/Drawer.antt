-- ===== src/Page/Drawer.antt =====
-- The drawer, its attribute and the backdrop agree, and it shows an endpoint of the report.
use scan_tls.Common.{
  Text, Bool, true, false, not, List, [], ◌∷◌, Option, none, some, ◌||◌, find?, any, ◌==◌, eq_refl,
  ◌≡◌, refl, arith, Bool-cases, Option-cases, inl, inr,
}
use scan_tls.Report.{Endpoint}
use scan_tls.Page.{
  DrawerContent, endpoint, DrawerState, closed_drawer, open_endpoint, close_drawer, DrawerEvent,
  open_id, open_host, press_key, drawer_step, run_drawer,
}

-- What the drawer may show: any host, and an endpoint that the report has.
abbrev pub is_known : List Endpoint → Option DrawerContent → Bool
is_known endpoints (some (endpoint id)) = any (λ e. e.endpoint_id == id) endpoints
is_known endpoints _ = true

abbrev pub has_content : Option DrawerContent → Bool
has_content none = false
has_content (some c) = true

-- The drawer, its attribute and the backdrop agree; an open drawer shows something; and what it shows
-- is of the report.
pub record IsDrawer (endpoints : List Endpoint) (s : DrawerState) : Type 0 where
  pub hidden : s.hidden ≡ not s.drawer_open
  pub backdrop : s.backdrop ≡ s.drawer_open
  pub known : is_known endpoints s.content ≡ true
  pub filled : (not s.drawer_open || has_content s.content) ≡ true

any-find? :
    (id : Text) (endpoints : List Endpoint) (e : Endpoint)
    → find? (λ x. x.endpoint_id == id) endpoints ≡ some e
    → any (λ x. x.endpoint_id == e.endpoint_id) endpoints ≡ true
any-find? id [] e h = cc
any-find? id (x ∷ xs) e h = elim (Bool-cases (x.endpoint_id == id)) [
  | inl same ↦
      let found : some x ≡ some e = rw same at h in
      let this : x.endpoint_id ≡ e.endpoint_id = cc found in rw (this, eq_refl e.endpoint_id) refl
  | inr other ↦
      let later : find? (λ x. x.endpoint_id == id) xs ≡ some e = rw other at h in
      rw (any-find? id xs e later) (ground arith)
]

open_endpoint-IsDrawer :
    (endpoints : List Endpoint) (id : Text) (s : DrawerState)
    → IsDrawer endpoints s
    → IsDrawer endpoints (open_endpoint endpoints id s)
unfolding open_endpoint
open_endpoint-IsDrawer endpoints id s v =
    elim (Option-cases (find? (λ e. e.endpoint_id == id) endpoints)) [
      | inl missing ↦ rw (missing, open_endpoint) v
      | inr (e, found) ↦
          rw (found, open_endpoint)
            (record {
              hidden = refl;
              backdrop = refl;
              known = any-find? id endpoints e found;
              filled = refl;
            })
    ]

close_drawer-IsDrawer :
    (endpoints : List Endpoint) (s : DrawerState)
    → IsDrawer endpoints s
    → IsDrawer endpoints (close_drawer s)
unfolding close_drawer
close_drawer-IsDrawer endpoints s v = record {
  hidden = refl;
  backdrop = refl;
  known = v.known;
  filled = refl;
}

drawer_step-IsDrawer :
    (endpoints : List Endpoint) (s : DrawerState) (e : DrawerEvent)
    → IsDrawer endpoints s
    → IsDrawer endpoints (drawer_step endpoints s e)
unfolding drawer_step
drawer_step-IsDrawer endpoints s (open_id id) v = open_endpoint-IsDrawer endpoints id s v
drawer_step-IsDrawer endpoints s (open_host key) v = record {
  hidden = refl;
  backdrop = refl;
  known = refl;
  filled = refl;
}
drawer_step-IsDrawer endpoints s (press_key false) v = v
drawer_step-IsDrawer endpoints s _ v = close_drawer-IsDrawer endpoints s v

run_drawer-IsDrawer_from :
    (endpoints : List Endpoint) (events : List DrawerEvent) (s : DrawerState)
    → IsDrawer endpoints s
    → IsDrawer endpoints (run_drawer endpoints s events)
unfolding run_drawer
run_drawer-IsDrawer_from endpoints [] s v = v
run_drawer-IsDrawer_from endpoints (e ∷ events) s v =
    run_drawer-IsDrawer_from endpoints events (drawer_step endpoints s e)
      (drawer_step-IsDrawer endpoints s e v)

-- After any events on a fresh page, the drawer is hidden from assistive technology exactly if it is
-- closed, the backdrop is there exactly if it is open, an open drawer shows something, and an
-- endpoint that it shows is one of the report.
pub run_drawer-IsDrawer :
    (endpoints : List Endpoint) (events : List DrawerEvent)
    → IsDrawer endpoints (run_drawer endpoints closed_drawer events)
run_drawer-IsDrawer endpoints events =
    run_drawer-IsDrawer_from endpoints events closed_drawer
      (record { hidden = refl; backdrop = refl; known = refl; filled = refl })
