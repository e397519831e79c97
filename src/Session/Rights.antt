-- ===== src/Session/Rights.antt =====
-- The rights of a session, `atLeast`.
use mathlib.Core.Path.{subst}
use mathlib.Core.Bool.{true≢false}
use scan_tls.Common.{
  Text, Bool, true, false, List, [], ◌∷◌, Option, none, some, ◌≡◌, refl, ap, foldl, All, eqb, arith,
  ◌&&◌, Bool-cases, inl, inr, if◌then◌else◌, ◌∙◌,
}
use scan_tls.Api.{Body, is_ok}
use scan_tls.Session.{
  Role, User, Client, at_least, SessionEvent, refreshed, logged_in, logged_out, called, uploaded,
  fetched, run_session, Opened, no_data, no_user, opened, completes,
}
use scan_tls.Session.Refinement.{
  Status, signed_out, signed_in, Represents, next_status, entered, session_of,
  run_session-Represents,
}

module _ (parse : Text → Option Body) where
  -- the status of a client
  abbrev pub status_of : Option User → Text → Status
  status_of none token = signed_out
  status_of (some u) token = signed_in (record { account = u; csrf_token = token })

  status_of-Represents :
      (u : Option User) (c : Client) → c.signed_in_user ≡ u → Represents (status_of u c.csrf) c
  status_of-Represents none c h = h
  status_of-Represents (some u) c h = (h, refl)

  -- a refresh or a login that succeeds with a session
  abbrev pub enters : SessionEvent → Bool
  enters (refreshed (some r)) = is_ok r && completes (session_of parse r)
  enters (logged_in (some r)) = is_ok r && completes (session_of parse r)
  enters _ = false

  -- an answer 401 to a request of `api`; uploads and a page's own fetches announce none
  abbrev pub is_unauthorized : SessionEvent → Bool
  is_unauthorized (refreshed (some r)) = eqb r.status 401
  is_unauthorized (logged_in (some r)) = eqb r.status 401
  is_unauthorized (logged_out (some r)) = eqb r.status 401
  is_unauthorized (called (some r)) = eqb r.status 401
  is_unauthorized _ = false

  next_status-unauthorized :
      (a : Status) (e : SessionEvent)
      → is_unauthorized e ≡ true
      → next_status parse a e ≡ signed_out
  next_status-unauthorized a (refreshed none) h = refl
  next_status-unauthorized a (refreshed (some r)) h = ground arith
  next_status-unauthorized a (logged_in none) h = cc
  next_status-unauthorized a (logged_in (some r)) h = ground arith
  next_status-unauthorized a (logged_out none) h = cc
  next_status-unauthorized a (logged_out (some r)) h = ground arith
  next_status-unauthorized a (called none) h = cc
  next_status-unauthorized a (called (some r)) h = ground arith
  next_status-unauthorized a (uploaded answer) h = cc
  next_status-unauthorized a (fetched answer) h = cc

  entered-stays_out : (o : Opened) → completes o ≡ false → entered signed_out o ≡ signed_out
  entered-stays_out no_data h = refl
  entered-stays_out (no_user token) h = refl
  entered-stays_out (opened d) h = absurd (true≢false h)

  answered-stays_out :
      (ok : Bool) (o : Opened)
      → ok && completes o ≡ false
      → (if ok then entered signed_out o else signed_out) ≡ signed_out
  answered-stays_out true o h = entered-stays_out o h
  answered-stays_out false o h = refl

  next_status-stays_out :
      (e : SessionEvent) → enters e ≡ false → next_status parse signed_out e ≡ signed_out
  next_status-stays_out (refreshed none) h = refl
  next_status-stays_out (refreshed (some r)) h = answered-stays_out (is_ok r) (session_of parse r) h
  next_status-stays_out (logged_in none) h = refl
  next_status-stays_out (logged_in (some r)) h = elim (Bool-cases (is_ok r)) [
    | inl ok ↦ rw ok (entered-stays_out (session_of parse r) (rw ok at h))
    | inr failed ↦ rw failed (ground arith)
  ]
  next_status-stays_out (logged_out none) h = refl
  next_status-stays_out (logged_out (some r)) h = ground arith
  next_status-stays_out (called none) h = refl
  next_status-stays_out (called (some r)) h = ground arith
  next_status-stays_out (uploaded answer) h = refl
  next_status-stays_out (fetched answer) h = refl

  stays_out :
      (events : List SessionEvent)
      → All (λ e. enters e ≡ false) events
      → foldl (next_status parse) signed_out events ≡ signed_out
  stays_out [] h = refl
  stays_out (e ∷ events) (p, h) =
      ap (λ a. foldl (next_status parse) a events) (next_status-stays_out e p) ∙ stays_out events h

  at_least-signed_out :
      (c : Client) (role : Role) → Represents signed_out c → at_least c.signed_in_user role ≡ false
  unfolding at_least
  at_least-signed_out c role h = rw (h, at_least) refl

  -- From an answer 401 to a request of `api` on, nobody has the rights of any role before a refresh or
  -- a login succeeds with a session. An answer 401 to an upload, or to a fetch that a page makes itself,
  -- is not announced, and not meant.
  pub at_least-unauthorized :
      (accepts prefers_dark : Bool) (c : Client) (e : SessionEvent) (events : List SessionEvent)
      (role : Role)
      → is_unauthorized e ≡ true
      → All (λ e. enters e ≡ false) events
      → at_least (run_session parse accepts prefers_dark c (e ∷ events)).signed_in_user role ≡ false
  at_least-unauthorized accepts prefers_dark c e events role h k = at_least-signed_out ran role (
      subst (λ b. Represents b ran)
        (ap (λ a. foldl (next_status parse) a events) (next_status-unauthorized a e h)
          ∙ stays_out events k)
        (run_session-Represents parse accepts prefers_dark (e ∷ events) a c
          (status_of-Represents c.signed_in_user c refl)))
    where
      ran : Client
      ran = run_session parse accepts prefers_dark c (e ∷ events)

      a : Status
      a = status_of c.signed_in_user c.csrf
