-- ===== src/Session/Refinement.antt =====
-- The session against an abstract one that knows the statuses of the answers, and the sessions in them.
use scan_tls.Common.{
  Text, ℕ, Bool, true, false, List, [], ◌∷◌, Option, none, some, ◌≡◌, refl, foldl, eqb, ◌||◌,
  if◌then◌else◌, Bool-cases, inl, inr, arith,
}
use scan_tls.Api.{Body, Response, is_ok, body_of, receive, thrown}
use scan_tls.Api.Errors.{receive_failed, receive_resolved}
use scan_tls.Session.{
  SessionData, Opened, no_data, no_user, opened, open_session, completes, Client, SessionEvent,
  refreshed, logged_in, logged_out, called, uploaded, fetched, session_step, run_session, apply,
  sign_out, hear, refresh_end, login_end, logout_end,
}

-- Nobody, or somebody with a token.
pub data Status : Type 0 where
  signed_out : Status
  signed_in : SessionData → Status

abbrev pub Represents : Status → Client → Type 0
Represents signed_out c = c.signed_in_user ≡ none
Represents (signed_in d) c = (c.signed_in_user ≡ some d.account) × (c.csrf ≡ d.csrf_token)

-- the status behind the data of an answer
abbrev pub entered : Status → Opened → Status
entered a no_data = a
entered a (no_user token) = signed_out
entered a (opened d) = signed_in d

module _ (parse : Text → Option Body) where
  -- the session in an answer; status 204 has no body
  abbrev pub session_of : Response → Opened
  session_of r = open_session (if eqb r.status 204 then none else body_of parse r.text)

  -- A refresh signs in where its answer holds a session, and out where it does not; a login that
  -- succeeds signs in, or out where its answer names no user, and changes nothing where it has no
  -- data; a logout that succeeds signs out; and 401 signs out, but for uploads and fetches of a page.
  abbrev pub next_status : Status → SessionEvent → Status
  next_status a (refreshed none) = signed_out
  next_status a (refreshed (some r)) =
      if is_ok r then entered signed_out (session_of r) else signed_out
  next_status a (logged_in none) = a
  next_status a (logged_in (some r)) =
      if is_ok r then entered a (session_of r) else if eqb r.status 401 then signed_out else a
  next_status a (logged_out none) = a
  next_status a (logged_out (some r)) = if is_ok r || eqb r.status 401 then signed_out else a
  next_status a (called none) = a
  next_status a (called (some r)) = if eqb r.status 401 then signed_out else a
  next_status a (uploaded answer) = a
  next_status a (fetched answer) = a

  ok-401 : (r : Response) → is_ok r ≡ true → eqb r.status 401 ≡ false
  ok-401 r h = ground arith

  announced : (r : Response) → (receive parse r).1 ≡ eqb r.status 401
  announced r = elim (Bool-cases (is_ok r)) [
    | inl ok ↦ rw (receive_resolved parse r ok, ok-401 r ok) refl
    | inr failed ↦ rw (receive_failed parse r failed) refl
  ]

  hear-Represents :
      (a : Status) (c : Client) (b : Bool)
      → Represents a c
      → Represents (if b then signed_out else a) (hear b c)
  hear-Represents a c true h = refl
  hear-Represents a c false h = h

  module _ (accepts prefers_dark : Bool) where
    refresh_end-thrown :
        (status : ℕ) (m : Option Text) (c : Client)
        → refresh_end accepts prefers_dark (thrown status m) c ≡ sign_out c
    unfolding refresh_end
    refresh_end-thrown status none c = refl
    refresh_end-thrown status (some m) c = refl

    login_end-thrown :
        (status : ℕ) (m : Option Text) (c : Client)
        → login_end accepts prefers_dark (thrown status m) c ≡ c
    unfolding login_end
    login_end-thrown status none c = refl
    login_end-thrown status (some m) c = refl

    logout_end-thrown :
        (status : ℕ) (m : Option Text) (c : Client) → logout_end (thrown status m) c ≡ c
    logout_end-thrown status none c = refl
    logout_end-thrown status (some m) c = refl

    refresh_end-Represents :
        (o : Opened) (c : Client)
        → Represents
            (entered signed_out o)
            (record (if completes o
              then apply accepts prefers_dark o c
              else sign_out (apply accepts prefers_dark o c)) { loading = false })
    unfolding apply
    refresh_end-Represents no_data c = refl
    refresh_end-Represents (no_user token) c = refl
    refresh_end-Represents (opened d) c = (refl, refl)

    apply-Represents :
        (a : Status) (o : Opened) (c : Client)
        → Represents a c
        → Represents (entered a o) (apply accepts prefers_dark o c)
    unfolding apply
    apply-Represents a no_data c h = h
    apply-Represents a (no_user token) c h = refl
    apply-Represents a (opened d) c h = (refl, refl)

    step : Client → SessionEvent → Client
    step c e = session_step parse accepts prefers_dark c e

    refreshed-Represents :
        (a : Status) (c : Client) (r : Response)
        → Represents a c
        → Represents (next_status a (refreshed (some r))) (step c (refreshed (some r)))
    unfolding step session_step refresh_end
    refreshed-Represents a c r h = elim (Bool-cases (is_ok r)) [
      | inl ok ↦ rw (ok, receive_resolved parse r ok) (refresh_end-Represents (session_of r) c)
      | inr failed ↦ rw (failed, receive_failed parse r failed, refresh_end-thrown r.status) refl
    ]

    step-Represents :
        (a : Status) (c : Client) (e : SessionEvent)
        → Represents a c
        → Represents (next_status a e) (step c e)
    unfolding step session_step login_end
    step-Represents a c (refreshed none) h = refl
    step-Represents a c (refreshed (some r)) h = refreshed-Represents a c r h
    step-Represents a c (logged_in none) h = h
    step-Represents a c (logged_in (some r)) h = elim (Bool-cases (is_ok r)) [
      | inl ok ↦ rw (ok, receive_resolved parse r ok) (apply-Represents a (session_of r) c h)
      | inr failed ↦
          rw (failed, receive_failed parse r failed, login_end-thrown r.status)
            (hear-Represents a c (eqb r.status 401) h)
    ]
    step-Represents a c (logged_out none) h = h
    step-Represents a c (logged_out (some r)) h = elim (Bool-cases (is_ok r)) [
      | inl ok ↦ rw (ok, receive_resolved parse r ok) refl
      | inr failed ↦
          rw (failed, receive_failed parse r failed, logout_end-thrown r.status)
            (hear-Represents a c (eqb r.status 401) h)
    ]
    step-Represents a c (called none) h = h
    step-Represents a c (called (some r)) h =
        rw (announced r) (hear-Represents a c (eqb r.status 401) h)
    step-Represents a c (uploaded answer) h = h
    step-Represents a c (fetched answer) h = h

    -- After any answers in any order, bodies without a session included, the session is the abstract
    -- one: the user of the last answer that holds a session is signed in with its token, or nobody is.
    pub run_session-Represents :
        (events : List SessionEvent) (a : Status) (c : Client)
        → Represents a c
        → Represents (foldl next_status a events) (run_session parse accepts prefers_dark c events)
    run_session-Represents [] a c h = h
    run_session-Represents (e ∷ events) a c h =
        run_session-Represents events (next_status a e) _ (unfold step in (step-Represents a c e h))
