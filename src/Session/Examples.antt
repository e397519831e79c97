-- ===== src/Session/Examples.antt =====
-- Runs of the session, and its theorems at concrete inputs.
use scan_tls.Common.{
  Text, str, true, false, List, [], ◌∷◌, ◌++◌, Option, none, some, ◌≡◌, refl, foldl, ◌==◌,
  if◌then◌else◌,
}
use scan_tls.Api.{Body, null, string, object, member, end, Response, receive}
use scan_tls.I18n.{en}
use scan_tls.Session.{
  auditor, Client, at_least, SessionEvent, refreshed, logged_in, called, run_session, session_step,
  apply, uploaded, open_session, login_end, refresh_end,
}
use scan_tls.Session.Refinement.{signed_out, Represents, next_status, run_session-Represents}
use scan_tls.Session.Loading.{run_session_loading}
use scan_tls.Session.Rights.{at_least-unauthorized, enters}

-- the data of a session, as the backend writes them
abbrev session_body : Body
session_body = object (
    member (str "user")
      (object (
        member (str "id") (string (str "u1")) (
          member (str "role") (string (str "OPERATOR")) (
            member (str "locale") null (
              member (str "theme") (string (str "dark"))
                (member (str "palette") (string (str "aurora")) end))))))
      (member (str "csrf_token") (string (str "t1")) end))

-- a parser that knows one text
abbrev parse_one : Text → Option Body
parse_one s = if s == str "{session}" then some session_body else none

abbrev start : Client
start = record {
  signed_in_user = none;
  loading = true;
  csrf = [];
  look = record {
    data_theme = none;
    data_appearance = none;
    stored_theme = none;
    stored_appearance = none;
  };
  i18n = record { locale = en; stored = none; document_lang = str "en" };
}

abbrev fine : Response
fine = record { status = 200; text = str "{session}" }

abbrev expired : Response
expired = record { status = 401; text = [] }

abbrev no_content : Response
no_content = record { status = 204; text = [] }

abbrev visit : List SessionEvent
visit = refreshed (some expired) ∷ logged_in (some fine) ∷ []

signed_in_rights :
    at_least (run_session parse_one true false start visit).signed_in_user auditor ≡ true
unfolding session_step at_least apply receive login_end refresh_end open_session ◌==◌
signed_in_rights = refl

-- a refresh that succeeds without a session signs out
no_content_signs_out :
    (run_session parse_one true false start
      (logged_in (some fine) ∷ refreshed (some no_content) ∷ [])).signed_in_user
    ≡ none
unfolding session_step apply receive login_end refresh_end open_session
no_content_signs_out = refl

-- an upload whose session has ended leaves the user signed in
expired_upload_rights :
    at_least
      (run_session parse_one true false start
        (logged_in (some fine) ∷ uploaded (some expired) ∷ [])).signed_in_user
      auditor
    ≡ true
unfolding session_step at_least apply receive login_end refresh_end open_session ◌==◌
expired_upload_rights = refl

run_session-Represents_example :
    Represents
      (foldl (next_status parse_one) signed_out visit)
      (run_session parse_one true false start visit)
run_session-Represents_example =
    run_session-Represents parse_one true false visit signed_out start refl

run_session_loading_example :
    (run_session parse_one true false start
      (called none ∷ [] ++ refreshed (some expired) ∷ logged_in none ∷ [])).loading
    ≡ false
run_session_loading_example =
    run_session_loading parse_one true false (called none ∷ []) (logged_in none ∷ []) (some expired)
      start

enters-no_content : enters parse_one (refreshed (some no_content)) ≡ false
unfolding open_session
enters-no_content = refl

at_least-unauthorized_example :
    at_least
      (run_session parse_one true false start (
        called (some expired)
        ∷ refreshed (some no_content)
        ∷ uploaded (some fine)
        ∷ [])).signed_in_user
      auditor
    ≡ false
at_least-unauthorized_example =
    at_least-unauthorized parse_one true false start (called (some expired))
      (refreshed (some no_content) ∷ uploaded (some fine) ∷ []) auditor refl
      (enters-no_content, (refl, tt))
