-- ===== src/Api.antt =====
-- frontend/src/api/client.ts: the requests of the frontend, and what it makes of the answers. `fetch`,
-- `JSON.parse`, `JSON.stringify` and `URLSearchParams` are the browser's, and parameters.
pub mod Errors
mod Examples
use scan_tls.Common.{
  Text, str, ℕ, Bool, true, false, not, List, [], ◌∷◌, ◌++◌, Option, none, some, or_else, eqb, leb,
  ◌&&◌, ◌||◌, ◌==◌, is_empty, if◌then◌else◌, join, filter, map,
}

-- What `JSON.parse` gives. A number is the text that `String` makes of it; no object has a key twice.
mutual
  pub data Body : Type 0 where
    null : Body
    bool : Bool → Body
    number : Text → Body
    string : Text → Body
    array : Items → Body
    object : Members → Body

  pub data Items : Type 0 where
    nil : Items
    cons : Body → Items → Items

  pub data Members : Type 0 where
    end : Members
    member : Text → Body → Members → Members

abbrev pub is_null : Body → Bool
is_null null = true
is_null _ = false

-- `String(value)`, and the texts that `join` makes of an array's elements
unfoldable mutual
  unfolding join

  pub body_text : Body → Text
  body_text null = str "null"
  body_text (bool true) = str "true"
  body_text (bool false) = str "false"
  body_text (number t) = t
  body_text (string s) = s
  body_text (array xs) = join (str ",") (element_texts xs)
  body_text (object ms) = str "[object Object]"

  pub element_texts : Items → List Text
  element_texts nil = []
  element_texts (cons x xs) = (if is_null x then [] else body_text x) ∷ element_texts xs

-- `value ? … : …`
unfoldable pub truthy : Body → Bool
unfolding ◌==◌
truthy null = false
truthy (bool b) = b
truthy (number t) = not (t == str "0")
truthy (string s) = not (is_empty s)
truthy (array xs) = true
truthy (object ms) = true

unfoldable pub member_of : Text → Members → Option Body
unfolding ◌==◌
member_of key end = none
member_of key (member k v ms) = if k == key then some v else member_of key ms

-- `value?.[key]`, for a key that no text and no array has
unfoldable pub property : Text → Body → Option Body
unfolding member_of
property key (object ms) = member_of key ms
property key _ = none

-- `(d.loc ?? []).slice(1).join(".")`; `none` is a TypeError
unfoldable pub path_of : Option Body → Option Text
unfolding body_text
path_of none = some []
path_of (some null) = some []
path_of (some (array nil)) = some []
path_of (some (array (cons x xs))) = some (join (str ".") (element_texts xs))
path_of (some _) = none

abbrev pub with_message : Text → Option Text → Option Text
with_message message none = none
with_message message (some path) = some (path ++ (str ": " ++ message))

-- one element of a list of validation errors
unfoldable pub issue_text : Body → Option Text
unfolding property truthy path_of body_text
issue_text d = elim (property (str "msg") d) [
  | none ↦ some (body_text d)
  | some message ↦
      if truthy message
      then with_message (body_text message) (path_of (property (str "loc") d))
      else some (body_text d)
]

abbrev pub cons_text : Option Text → Option (List Text) → Option (List Text)
cons_text (some s) (some ss) = some (s ∷ ss)
cons_text _ _ = none

unfoldable pub issue_texts : Items → Option (List Text)
unfolding issue_text
issue_texts nil = some []
issue_texts (cons d ds) = cons_text (issue_text d) (issue_texts ds)

abbrev pub joined : Option (List Text) → Option Text
joined none = none
joined (some ss) = some (join (str "; ") ss)

-- `detailToMessage`; `none` in front is `undefined`, behind a TypeError
unfoldable pub detail_to_message : Option Body → Option Text
unfolding issue_texts
detail_to_message (some (string s)) = some s
detail_to_message (some (array ds)) = joined (issue_texts ds)
detail_to_message _ = some (str "Request failed")

-- `data?.detail ?? data`
unfoldable pub detail_of : Option Body → Option Body
unfolding property
detail_of none = none
detail_of (some d) = elim (property (str "detail") d) [
  | none ↦ some d
  | some detail ↦ if is_null detail then some d else some detail
]

pub record Response : Type 0 where
  pub status : ℕ
  pub text : Text

-- `response.ok`
abbrev pub is_ok : Response → Bool
is_ok r = leb 200 r.status && leb r.status 299

-- How the promise of a call ends.
pub data Outcome : Type 0 where
  resolved : Option Body → Outcome
  api_error : ℕ → Text → Outcome
  type_error : Outcome
  syntax_error : Outcome

-- `throw new ApiError(status, message)`
abbrev pub thrown : ℕ → Option Text → Outcome
thrown status none = type_error
thrown status (some message) = api_error status message

module _ (parse : Text → Option Body) where
  -- `text ? JSON.parse(text) : undefined`, or the text where it is not JSON
  unfoldable pub body_of : Text → Option Body
  body_of text =
      if is_empty text
      then none
      else (elim (parse text) [ some d ↦ some d | none ↦ some (string text) ])

  -- `api` from the answer on: the outcome, and whether the event "tls-scan:unauthorized" is dispatched
  unfoldable pub receive : Response → Outcome × Bool
  unfolding body_of detail_of detail_to_message
  receive r =
      if eqb r.status 204
      then (resolved none, false)
      else if is_ok r
      then (resolved (body_of r.text), false)
      else (thrown r.status (detail_to_message (detail_of (body_of r.text))), eqb r.status 401)

  -- `upload` from the answer on
  unfoldable pub receive_upload : Response → Outcome
  unfolding detail_of detail_to_message
  receive_upload r = elim (parse r.text) [
    | none ↦ syntax_error
    | some d ↦
        if is_ok r
        then resolved (some d)
        else thrown r.status (detail_to_message (detail_of (some d)))
  ]

-- The values of `params`.
pub data Param : Type 0 where
  undefined : Param
  flag : Bool → Param
  words : Text → Param

-- `v !== undefined && v !== "" && v !== false`
abbrev pub is_sent : Text × Param → Bool
is_sent (name, undefined) = false
is_sent (name, flag b) = b
is_sent (name, words s) = not (is_empty s)

-- `[k, String(v)]`
abbrev pub sent_entry : Text × Param → Text × Text
sent_entry (name, undefined) = (name, str "undefined")
sent_entry (name, flag true) = (name, str "true")
sent_entry (name, flag false) = (name, str "false")
sent_entry (name, words s) = (name, s)

-- `options`
pub record CallOptions : Type 0 where
  pub method : Option Text
  pub body : Option Body
  pub params : Option (List (Text × Param))

-- What is handed to `fetch`.
pub record Request : Type 0 where
  pub method : Text
  pub url : Text
  pub is_json : Bool
  pub csrf : Option Text
  pub body : Option Text

module _ (serialize : List (Text × Text) → Text) (stringify : Body → Text) where
  unfoldable pub query_of : Option (List (Text × Param)) → Text
  query_of none = []
  query_of (some params) = b'?' ∷ serialize (map sent_entry (filter is_sent params))

  -- `api` up to the request
  unfoldable pub request_of : Text → Text → CallOptions → Request
  unfolding query_of ◌==◌
  request_of token path options =
      let method = or_else options.method (str "GET") in
      let query = query_of options.params in
      record {
        method = method;
        url = str "/api" ++ (path ++ (if query == str "?" then [] else query));
        is_json = elim options.body [ none ↦ false | some d ↦ true ];
        csrf = if method == str "GET" then none else some token;
        body = elim options.body [ none ↦ none | some d ↦ some (stringify d) ];
      }
