-- ===== src/Api/Examples.antt =====
-- Runs of the API client, and its theorems at concrete inputs.
use scan_tls.Common.{
  Text, str, true, false, [], ◌∷◌, Option, none, some, ◌≡◌, refl, join, map, ◌==◌, eqb,
  if◌then◌else◌,
}
use scan_tls.Api.{
  Body, string, cons, nil, property, object, member, end, array, Response, api_error, receive,
  receive_upload, body_of, detail_of, request_of, undefined, flag, words, syntax_error,
}
use scan_tls.Api.Errors.{
  IsDetail, receive-api_error, Issue, IsIssue, key, index, places, issue_line, receive-issues,
}

abbrev issue : Issue
issue = record {
  source = str "body";
  place = key (str "ports") ∷ index 0 ∷ [];
  message = str "invalid target";
}

-- the issue as the backend's framework writes it
abbrev issue_body : Body
issue_body = object (
    member (str "type") (string (str "value_error")) (
      member (str "loc") (array (cons (string (str "body")) (places issue.place))) (
        member (str "msg") (string (str "invalid target"))
          (member (str "input") (string (str "x")) end))))

abbrev issues_body : Body
issues_body = object (member (str "detail") (array (cons issue_body nil)) end)

issue-IsIssue : IsIssue issue_body issue
unfolding property ◌==◌
issue-IsIssue = record { located = refl; told = refl; not_empty = refl }

issues_detail : property (str "detail") issues_body ≡ some (array (cons issue_body nil))
unfolding property ◌==◌
issues_detail = refl

-- a parser that knows one text
abbrev parse_one : Text → Option Body
parse_one s = if s == str "{issues}" then some issues_body else none

abbrev refused : Response
refused = record { status = 422; text = str "{issues}" }

abbrev expired : Response
expired = record { status = 401; text = str "Not authenticated" }

refused_parsed : parse_one refused.text ≡ some issues_body
unfolding ◌==◌
refused_parsed = refl

-- the place of the element is told by its position
refused_message : (receive parse_one refused).0 ≡ api_error 422 (str "ports.0: invalid target")
unfolding receive ◌==◌ scan_tls.Value.show_nat
refused_message = refl

expired_text : receive parse_one expired ≡ (api_error 401 (str "Not authenticated"), true)
unfolding receive ◌==◌
expired_text = refl

expired_upload : receive_upload parse_one expired ≡ syntax_error
unfolding receive_upload ◌==◌
expired_upload = refl

expired-IsDetail : IsDetail (detail_of (body_of parse_one expired.text))
unfolding body_of detail_of ◌==◌
expired-IsDetail = tt

receive-api_error_example :
    (message : Text) × (receive parse_one expired
      ≡ (api_error expired.status message, eqb expired.status 401))
receive-api_error_example = receive-api_error parse_one expired refl expired-IsDetail

receive-issues_example :
    (receive parse_one refused).0
    ≡ api_error refused.status (join (str "; ") (map issue_line (issue ∷ [])))
receive-issues_example =
    receive-issues parse_one refused issues_body (cons issue_body nil) (issue ∷ []) refl refl
      refused_parsed issues_detail (issue-IsIssue, tt)

-- A parameter that is empty, false or undefined is not sent.
query :
    request_of
      (λ entries. elim entries [ [] ↦ [] | (k, v) ∷ _ ↦ v ])
      (λ d. [])
      (str "token")
      (str "/x")
      (record {
        method = none;
        body = none;
        params = some ((str "a", undefined) ∷ (str "b", flag false) ∷ (str "c", words []) ∷ []);
      })
    ≡ record { method = str "GET"; url = str "/api/x"; is_json = false; csrf = none; body = none }
unfolding request_of ◌==◌
query = refl
