-- ===== src/Session.antt =====
-- frontend/src/auth/AuthContext.tsx: who is signed in. The answers of the backend come one after the
-- other, each as an event; those of `api` go through `receive` of Api, and what their bodies hold is
-- read field by field. Of a user's fields those are kept that the session reads; types.ts says that
-- theme and palette are texts, and locale a text or null, and a field that is no text is left out.
pub mod Refinement
pub mod Loading
pub mod Rights
mod Examples
use scan_tls.Common.{
  Text, str, ℕ, Bool, true, false, List, [], ◌∷◌, Option, none, some, is_empty, leb, if◌then◌else◌,
  foldl, ◌==◌,
}
use scan_tls.Api.{
  Body, null, string, Response, Outcome, resolved, receive, property, truthy, body_text,
}
use scan_tls.I18n.{Language, known_language, I18nState, set_locale}
use scan_tls.Theme.{ThemeId, theme_of, Look, apply_theme, apply_appearance}

-- `Role`
pub data Role : Type 0 where
  auditor user operator admin : Role

-- `RANK`
abbrev pub rank : Role → ℕ
rank auditor = 1
rank user = 2
rank operator = 3
rank admin = 4

-- the role that `RANK[user.role]` finds; any other text has no rank, and no rank is at least another
unfoldable pub role_of : Text → Option Role
unfolding ◌==◌
role_of v =
    if v == str "AUDITOR"
    then some auditor
    else if v == str "USER"
    then some user
    else if v == str "OPERATOR"
    then some operator
    else if v == str "ADMIN"
    then some admin
    else none

-- `User`, as far as the session reads it
pub record User : Type 0 where
  pub id : Text
  pub role : Option Role
  pub locale : Option Text
  pub theme : Text
  pub palette : Text

-- the data of /auth/me and /auth/login
pub record SessionData : Type 0 where
  pub account : User
  pub csrf_token : Text

abbrev pub text_field : Option Body → Option Text
text_field (some (string s)) = some s
text_field _ = none

-- `data.user` as a User
unfoldable pub account_of : Body → User
unfolding property role_of body_text
account_of d = record {
  id = elim (property (str "id") d) [ none ↦ [] | some v ↦ body_text v ];
  role = elim (property (str "role") d) [ none ↦ none | some v ↦ role_of (body_text v) ];
  locale = text_field (property (str "locale") d);
  theme = elim (text_field (property (str "theme") d)) [ none ↦ [] | some s ↦ s ];
  palette = elim (text_field (property (str "palette") d)) [ none ↦ [] | some s ↦ s ];
}

-- What `apply` finds in the data of an answer: nothing it can read a field of; a token and no user;
-- or a session.
pub data Opened : Type 0 where
  no_data : Opened
  no_user : Text → Opened
  opened : SessionData → Opened

-- `data.csrf_token`, where it is put into a header: undefined is a text there
unfoldable pub token_of : Body → Text
unfolding property body_text
token_of d = elim (property (str "csrf_token") d) [ none ↦ str "undefined" | some v ↦ body_text v ]

-- A user that is false, 0 or "" is nobody as well.
unfoldable pub open_session : Option Body → Opened
unfolding property truthy account_of token_of
open_session none = no_data
open_session (some null) = no_data
open_session (some d) = elim (property (str "user") d) [
  | none ↦ no_user (token_of d)
  | some u ↦
      if truthy u
      then opened (record { account = account_of u; csrf_token = token_of d })
      else no_user (token_of d)
]

-- The state of the provider, the token of api/client.ts, and what the preferences of a user change.
pub record Client : Type 0 where
  pub signed_in_user : Option User
  pub loading : Bool
  pub csrf : Text
  pub look : Look
  pub i18n : I18nState

-- `atLeast`
unfoldable pub at_least : Option User → Role → Bool
at_least none role = false
at_least (some u) role = elim u.role [ none ↦ false | some r ↦ leb (rank role) (rank r) ]

-- The answer to a request; `none` where the network fails. `called` is any other request of `api`,
-- `uploaded` one of `upload`, and `fetched` one that a page makes itself (the export of Policies.tsx).
pub data SessionEvent : Type 0 where
  refreshed logged_in logged_out called uploaded fetched : Option Response → SessionEvent

abbrev pub sign_out : Client → Client
sign_out c = record c { signed_in_user = none }

-- the listener of "tls-scan:unauthorized"
abbrev pub hear : Bool → Client → Client
hear unauthorized c = if unauthorized then sign_out c else c

abbrev pub with_palette : Bool → Option ThemeId → Look → Look
with_palette accepts none look = look
with_palette accepts (some t) look = apply_theme accepts t look

abbrev pub with_locale : Bool → Option Language → I18nState → I18nState
with_locale accepts none i18n = i18n
with_locale accepts (some l) i18n = set_locale accepts l i18n

module _ (accepts prefers_dark : Bool) where
  abbrev pub with_appearance : Text → Look → Look
  with_appearance theme look =
      if is_empty theme then look else apply_appearance accepts prefers_dark theme look

  -- `apply`, up to the TypeError where there is no data or no user
  unfoldable pub apply : Opened → Client → Client
  apply no_data c = c
  apply (no_user token) c = record c { csrf = token; signed_in_user = none }
  apply (opened d) c = record c {
    csrf = d.csrf_token;
    signed_in_user = some d.account;
    look =
        with_palette accepts (theme_of d.account.palette) (with_appearance d.account.theme c.look);
    i18n = with_locale accepts (known_language d.account.locale) c.i18n;
  }

-- `apply` throws nothing; for a user that is nobody it makes no difference whether it does.
abbrev pub completes : Opened → Bool
completes (opened d) = true
completes _ = false

-- `logout` from the outcome of its call on
abbrev pub logout_end : Outcome → Client → Client
logout_end (resolved d) c = sign_out c
logout_end _ c = c

module _ (accepts prefers_dark : Bool) where
  -- `refresh` from the outcome of its call on: what `apply` throws is caught
  unfoldable pub refresh_end : Outcome → Client → Client
  unfolding open_session
  refresh_end (resolved d) c =
      let o = open_session d in
      let applied = apply accepts prefers_dark o c in
      if completes o then applied else sign_out applied
  refresh_end _ c = sign_out c

  -- `login` from the outcome of its call on
  unfoldable pub login_end : Outcome → Client → Client
  unfolding open_session
  login_end (resolved d) c = apply accepts prefers_dark (open_session d) c
  login_end _ c = c

module _ (parse : Text → Option Body) (accepts prefers_dark : Bool) where
  unfoldable pub session_step : Client → SessionEvent → Client
  session_step c (refreshed none) = record (sign_out c) { loading = false }
  session_step c (refreshed (some r)) =
      let (outcome, unauthorized) = receive parse r in
      record (refresh_end accepts prefers_dark outcome (hear unauthorized c)) { loading = false }
  session_step c (logged_in none) = c
  session_step c (logged_in (some r)) =
      let (outcome, unauthorized) = receive parse r in
      login_end accepts prefers_dark outcome (hear unauthorized c)
  session_step c (logged_out none) = c
  session_step c (logged_out (some r)) =
      let (outcome, unauthorized) = receive parse r in logout_end outcome (hear unauthorized c)
  session_step c (called none) = c
  session_step c (called (some r)) = hear (receive parse r).1 c
  session_step c (uploaded answer) = c
  session_step c (fetched answer) = c

  abbrev pub run_session : Client → List SessionEvent → Client
  run_session c events = foldl session_step c events
