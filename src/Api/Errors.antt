-- ===== src/Api/Errors.antt =====
-- How a call of the API ends, for every answer.
use scan_tls.Common.{
  Text, str, ℕ, true, false, List, [], ◌∷◌, ◌++◌, Option, none, some, ◌≡◌, ◌↔◌, refl, ap,
  Option-cases, if◌then◌else◌, eqb, eqb_iff, Bool-cases, inl, inr, is_empty, join, map, arith,
}
use scan_tls.Value.{show_nat}
use scan_tls.Api.{
  Body, null, bool, number, string, array, object, Items, nil, cons, body_text, element_texts,
  property, path_of, issue_text, issue_texts, detail_to_message, detail_of, Response, is_ok,
  Outcome, resolved, api_error, thrown, truthy, with_message, body_of, receive,
}

abbrev IsResolved : Outcome → Type 0
IsResolved (resolved d) = Unit
IsResolved _ = ⊥

thrown-not_resolved : (status : ℕ) (m : Option Text) → IsResolved (thrown status m) → ⊥
thrown-not_resolved status none h = h
thrown-not_resolved status (some m) h = h

-- Where an issue names its place, it does so by a list.
abbrev pub IsPath : Option Body → Type 0
IsPath none = Unit
IsPath (some null) = Unit
IsPath (some (array xs)) = Unit
IsPath (some _) = ⊥

abbrev pub HasPaths : Items → Type 0
HasPaths nil = Unit
HasPaths (cons d ds) = IsPath (property (str "loc") d) × HasPaths ds

-- a detail that is a list of issues names their places by lists
abbrev pub IsDetail : Option Body → Type 0
IsDetail (some (array ds)) = HasPaths ds
IsDetail _ = Unit

path_of_total : (loc : Option Body) → IsPath loc → (p : Text) × (path_of loc ≡ some p)
unfolding path_of
path_of_total none h = ([], refl)
path_of_total (some null) h = ([], refl)
path_of_total (some (array nil)) h = ([], refl)
path_of_total (some (array (cons x xs))) h = (join (str ".") (element_texts xs), refl)
path_of_total (some (bool b)) h = absurd h
path_of_total (some (number t)) h = absurd h
path_of_total (some (string s)) h = absurd h
path_of_total (some (object ms)) h = absurd h

with_message_total :
    (loc : Option Body) (message : Text)
    → IsPath loc
    → (s : Text) × (with_message message (path_of loc) ≡ some s)
with_message_total loc message h =
    let (p, e) = path_of_total loc h in (p ++ (str ": " ++ message), rw e refl)

issue_text_total :
    (d : Body) → IsPath (property (str "loc") d) → (s : Text) × (issue_text d ≡ some s)
unfolding issue_text
issue_text_total d h = elim (Option-cases (property (str "msg") d)) [
  | inl e ↦ (body_text d, rw (e, issue_text) refl)
  | inr (message, e) ↦ elim (Bool-cases (truthy message)) [
    | inl t ↦
        let (s, f) = with_message_total (property (str "loc") d) (body_text message) h in
        (s, rw (e, issue_text, t) f)
    | inr t ↦ (body_text d, rw (e, issue_text, t) refl)
  ]
]

issue_texts_total : (ds : Items) → HasPaths ds → (ss : List Text) × (issue_texts ds ≡ some ss)
unfolding issue_texts
issue_texts_total nil h = ([], refl)
issue_texts_total (cons d ds) (p, h) =
    let (s, e) = issue_text_total d p in
    let (ss, f) = issue_texts_total ds h in (s ∷ ss, rw (e, f) refl)

detail_to_message_total :
    (detail : Option Body) → IsDetail detail → (s : Text) × (detail_to_message detail ≡ some s)
unfolding detail_to_message
detail_to_message_total none h = (str "Request failed", refl)
detail_to_message_total (some null) h = (str "Request failed", refl)
detail_to_message_total (some (bool b)) h = (str "Request failed", refl)
detail_to_message_total (some (number t)) h = (str "Request failed", refl)
detail_to_message_total (some (string s)) h = (s, refl)
detail_to_message_total (some (object ms)) h = (str "Request failed", refl)
detail_to_message_total (some (array ds)) h =
    let (ss, e) = issue_texts_total ds h in (join (str "; ") ss, rw e refl)

module _ (parse : Text → Option Body) (r : Response) where
  pub receive_failed :
      is_ok r ≡ false
      → receive parse r
        ≡ (thrown r.status (detail_to_message (detail_of (body_of parse r.text))), eqb r.status 401)
  unfolding receive
  receive_failed h = elim (Bool-cases (eqb r.status 204)) [
    | inl e ↦ absurd (ground arith)
    | inr e ↦ rw (e, h) refl
  ]

  pub receive_resolved :
      is_ok r ≡ true
      → receive parse r
        ≡ (resolved (if eqb r.status 204 then none else body_of parse r.text), false)
  unfolding receive
  receive_resolved h = elim (Bool-cases (eqb r.status 204)) [
    | inl e ↦ rw e refl
    | inr e ↦ rw (e, h) refl
  ]

  -- A call resolves exactly for a status of 200 to 299, and the end of the session is announced exactly
  -- for status 401.
  receive_lem :
      (IsResolved (receive parse r).0 ↔ (is_ok r ≡ true))
      × (((receive parse r).1 ≡ true) ↔ (r.status ≡ 401))
  receive_lem = elim (Bool-cases (is_ok r)) [
    | inl ok ↦ rw (receive_resolved ok) ((λ h. ok, λ h. tt), (λ h. cc, λ h. ground arith))
    | inr failed ↦ rw (receive_failed failed) (
      (λ h. absurd (thrown-not_resolved r.status _ h), λ h. absurd (ground arith)),
      eqb_iff r.status 401,
    )
  ]

  -- Every status outside 200 to 299 ends in an ApiError with that status and a message, and never in
  -- a TypeError, if a list of issues in the answer names their places by lists.
  pub receive-api_error :
      is_ok r ≡ false
      → IsDetail (detail_of (body_of parse r.text))
      → (message : Text) × (receive parse r ≡ (api_error r.status message, eqb r.status 401))
  receive-api_error failed h =
      let (message, e) = detail_to_message_total (detail_of (body_of parse r.text)) h in
      (message, rw (receive_failed failed, e) refl)

-- One part of an issue's place: a field's name, or the position in a list.
pub data Place : Type 0 where
  key : Text → Place
  index : ℕ → Place

abbrev pub place_body : Place → Body
place_body (key s) = string s
place_body (index n) = number (show_nat n)

abbrev pub place_text : Place → Text
place_text (key s) = s
place_text (index n) = show_nat n

abbrev pub places : List Place → Items
places [] = nil
places (p ∷ ps) = cons (place_body p) (places ps)

-- What a validation error of the backend's framework says.
pub record Issue : Type 0 where
  pub source : Text
  pub place : List Place
  pub message : Text

-- The value holds the issue: `loc` and `msg` are the issue's, and any other member may be there.
pub record IsIssue (d : Body) (i : Issue) : Type 0 where
  pub located : property (str "loc") d ≡ some (array (cons (string i.source) (places i.place)))
  pub told : property (str "msg") d ≡ some (string i.message)
  pub not_empty : is_empty i.message ≡ false

abbrev pub AreIssues : Items → List Issue → Type 0
AreIssues nil [] = Unit
AreIssues (cons d ds) (i ∷ is) = IsIssue d i × AreIssues ds is
AreIssues _ _ = ⊥

-- place.in.body.0: message
abbrev pub issue_line : Issue → Text
issue_line i = join (str ".") (map place_text i.place) ++ (str ": " ++ i.message)

element_texts-places : (ps : List Place) → element_texts (places ps) ≡ map place_text ps
unfolding element_texts
element_texts-places [] = refl
element_texts-places (key s ∷ ps) = ap (◌∷◌ s) (element_texts-places ps)
element_texts-places (index n ∷ ps) = ap (◌∷◌ (show_nat n)) (element_texts-places ps)

issue_text-IsIssue : (d : Body) (i : Issue) → IsIssue d i → issue_text d ≡ some (issue_line i)
unfolding issue_text
issue_text-IsIssue d i v =
    rw (v.told, issue_text, v.not_empty, v.located, path_of, element_texts-places i.place) refl

issue_texts-AreIssues :
    (ds : Items) (is : List Issue) → AreIssues ds is → issue_texts ds ≡ some (map issue_line is)
unfolding issue_texts
issue_texts-AreIssues nil [] h = refl
issue_texts-AreIssues nil (i ∷ is) h = absurd h
issue_texts-AreIssues (cons d ds) [] h = absurd h
issue_texts-AreIssues (cons d ds) (i ∷ is) (v, h) =
    rw (issue_text-IsIssue d i v, issue_texts-AreIssues ds is h) refl

detail_of-array :
    (d : Body) (ds : Items)
    → property (str "detail") d ≡ some (array ds)
    → detail_of (some d) ≡ some (array ds)
unfolding detail_of
detail_of-array d ds e = rw (e, detail_of) refl

-- Validation errors are told line by line: the place without its first part, and the message. The
-- answer is an object whose detail is the list of them, each with any members beside `loc` and `msg`.
pub receive-issues :
    (parse : Text → Option Body) (r : Response) (d : Body) (ds : Items) (is : List Issue)
    → is_ok r ≡ false
    → is_empty r.text ≡ false
    → parse r.text ≡ some d
    → property (str "detail") d ≡ some (array ds)
    → AreIssues ds is
    → (receive parse r).0 ≡ api_error r.status (join (str "; ") (map issue_line is))
unfolding detail_to_message
receive-issues parse r d ds is failed given parsed detailed h =
    rw
      (
        receive_failed parse r failed,
        body_of-parsed,
        detail_of-array d ds detailed,
        issue_texts-AreIssues ds is h,
      )
      refl
  where
    body_of-parsed : body_of parse r.text ≡ some d
    body_of-parsed = unfold body_of in rw (given, parsed) refl
