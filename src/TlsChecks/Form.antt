-- ===== src/TlsChecks/Form.antt =====
-- frontend/src/components/TlsChecksPicker.tsx: the zone of the profile form that edits `checks.tls`,
-- with its state, its events and the field of a list of ports. The catalogue is what the API
-- returned, not empty. `checks` and `tls` are objects or are missing, which the component's types say;
-- another value there counts as missing. What the form looks like is not modelled, and of the option
-- fields only that for ports.
use scan_tls.Common.{
  Text, str, Bool, not, List, [], ◌∷◌, ◌++◌, Option, none, some, ◌≡◌, refl, sym, ◌∙◌, ap, filter,
  length, ltb, mem_text, mem_text-append, ◌==◌, eq_iff, eq_refl, ◌||◌, if◌then◌else◌, arith, Perm,
  Bool-cases, inl, inr,
}
use mathlib.Core.List.Perm
use mathlib.Core.List.{perm_middle}
use scan_tls.Json.{
  Json, Fields, end, field, get, put, remove, get-put_same, get-remove_same, get-end,
}
use scan_tls.TlsChecks.{
  TlsCheckSpec, entry_of, is_enabled, entry_enabled, set_enabled, entry_option, get_option,
  entry_mapping, set_entry, set_option, spread, with_tls_section, visible_checks, PortsResult,
  standard, invalid, listed, parse_ports,
}
use scan_tls.TlsChecks.Sections.{is_enabled-set_enabled, entry_of-put, get-set_entry}

-- `tls` of `(value.checks as {tls?: TlsSection } | undefined)?.tls`, and the whole of it
abbrev pub tls_in : Option Json → Option Fields
tls_in (some (Json.obj tls)) = some tls
tls_in _ = none

abbrev pub checks_in : Option Json → Option Fields
checks_in (some (Json.obj checks)) = tls_in (get (str "tls") checks)
checks_in _ = none

unfoldable pub section_of : Fields → Option Fields
section_of content = checks_in (get (str "checks") content)

-- The state of the component (`list_open` is `open`), with the profile that it edits.
pub record FormState : Type 0 where
  pub content : Fields
  pub added : List Text
  pub list_open : Bool

-- `visible`
abbrev pub visible : List TlsCheckSpec → FormState → List TlsCheckSpec
visible catalog s = visible_checks catalog (section_of s.content) s.added

-- `hidden`; a check of the catalogue is among the visible ones exactly if it passes their filter
unfoldable pub hidden_checks : List TlsCheckSpec → Option Fields → List Text → List TlsCheckSpec
hidden_checks catalog section added =
    filter (λ c. not (c.recommended || is_enabled section c.id || mem_text c.id added)) catalog

-- A click on a check's box, a change of an option, a click on "Add checks", and on a hidden check.
pub data FormEvent : Type 0 where
  toggle : Text → Bool → FormEvent
  change_option : Text → Text → Option Json → FormEvent
  toggle_open : FormEvent
  add : Text → FormEvent

unfoldable pub form_step : List TlsCheckSpec → FormState → FormEvent → FormState
form_step catalog s (toggle id enabled) = record s {
  content = with_tls_section s.content (set_enabled (section_of s.content) id enabled);
}
form_step catalog s (change_option id name value) = record s {
  content = with_tls_section s.content (set_option (section_of s.content) id name value);
}
form_step catalog s toggle_open = record s { list_open = not s.list_open }
form_step catalog s (add id) = record s {
  added = s.added ++ id ∷ [];
  list_open = ltb 1 (length (hidden_checks catalog (section_of s.content) s.added));
}

-- what `onChange` of the field of a list of ports does with the result of `parsePorts`
unfoldable pub take_ports : List TlsCheckSpec → Text → Text → FormState → PortsResult → FormState
take_ports catalog id name s invalid = s
take_ports catalog id name s standard = form_step catalog s (change_option id name none)
take_ports catalog id name s (listed ns) =
    form_step catalog s (change_option id name (some (Json.ports ns)))

-- `onChange` of that field
unfoldable pub type_ports : List TlsCheckSpec → Text → Text → Text → FormState → FormState
unfolding take_ports
type_ports catalog id name text s = take_ports catalog id name s (parse_ports text)

section_of-put :
    (content checks : Fields)
    → section_of (put (str "checks") (Json.obj checks) content) ≡ tls_in (get (str "tls") checks)
unfolding section_of
section_of-put content checks = ap checks_in (get-put_same (str "checks") (Json.obj checks) content)

-- What is read from the profile after a section was written to it.
entry_of-written :
    (content section : Fields) (id : Text)
    → entry_of (section_of (with_tls_section content section)) id ≡ entry_of (some section) id
unfolding with_tls_section entry_of
entry_of-written content end id =
    let checks = spread (get (str "checks") content) in
    ap (λ o. entry_of o id)
      (section_of-put content (remove (str "tls") checks)
        ∙ ap tls_in (get-remove_same (str "tls") checks))
    ∙ sym (get-end id)
entry_of-written content (field k v fs) id =
    let checks = spread (get (str "checks") content) in
    let section = Json.obj (field k v fs) in
    ap (λ o. entry_of o id)
      (section_of-put content (put (str "tls") section checks)
        ∙ ap tls_in (get-put_same (str "tls") section checks))

is_enabled-written :
    (content section : Fields) (id : Text)
    → is_enabled (section_of (with_tls_section content section)) id ≡ is_enabled (some section) id
unfolding is_enabled
is_enabled-written content section id = ap entry_enabled (entry_of-written content section id)

get_option-written :
    (content section : Fields) (id name : Text)
    → get_option (section_of (with_tls_section content section)) id name
      ≡ get_option (some section) id name
unfolding get_option
get_option-written content section id name =
    ap (λ e. entry_option e name) (entry_of-written content section id)

-- A click on a box sets the check of that box in the profile as asked, and no other, also where
-- the last check goes and with it the section.
pub is_enabled-toggle :
    (catalog : List TlsCheckSpec) (s : FormState) (id j : Text) (enabled : Bool)
    → is_enabled (section_of (form_step catalog s (toggle id enabled)).content) j
      ≡ (if id == j then enabled else is_enabled (section_of s.content) j)
unfolding form_step
is_enabled-toggle catalog s id j enabled =
    is_enabled-written s.content (set_enabled (section_of s.content) id enabled) j
    ∙ is_enabled-set_enabled (section_of s.content) id j enabled

get_option-set_option_same :
    (section : Option Fields) (id name : Text) (value : Option Json)
    → get_option (some (set_option section id name value)) id name ≡ value
unfolding get_option set_option entry_option
get_option-set_option_same section id name value =
    let entry = set_entry name value (entry_mapping (entry_of section id)) in
    ap (λ e. entry_option e name) {y = some (Json.obj entry)}
      (entry_of-put section id id (Json.obj entry) ∙ rw (eq_refl id) refl)
    ∙ (get-set_entry name name value (entry_mapping (entry_of section id)) ∙ rw (eq_refl name) refl)

-- The value that an option has behind a result of `parsePorts`, where it was `before`.
abbrev pub ports_value : Option Json → PortsResult → Option Json
ports_value before invalid = before
ports_value before standard = none
ports_value before (listed ns) = some (Json.ports ns)

-- Typing into the field of a list of ports: a list that is accepted is written to the profile, a
-- blank text removes the option, and with a text that is not accepted the option keeps the value
-- that was there.
pub get_option-type_ports :
    (catalog : List TlsCheckSpec) (id name text : Text) (s : FormState)
    → get_option (section_of (type_ports catalog id name text s).content) id name
      ≡ ports_value (get_option (section_of s.content) id name) (parse_ports text)
unfolding type_ports
get_option-type_ports catalog id name text s = on_result (parse_ports text)
  where
    changed :
        (value : Option Json)
        → get_option
            (section_of (form_step catalog s (change_option id name value)).content)
            id
            name
          ≡ value
    changed value =
        unfold form_step in
        (get_option-written s.content (set_option (section_of s.content) id name value) id name
          ∙ get_option-set_option_same (section_of s.content) id name value)

    on_result :
        (r : PortsResult)
        → get_option (section_of (take_ports catalog id name s r).content) id name
          ≡ ports_value (get_option (section_of s.content) id name) r
    on_result invalid = unfold take_ports in refl
    on_result standard = unfold take_ports in changed none
    on_result (listed ns) = unfold take_ports in changed (some (Json.ports ns))

abbrev is_visible : Option Fields → List Text → TlsCheckSpec → Bool
is_visible section added c = c.recommended || is_enabled section c.id || mem_text c.id added

filter-split :
    (p : TlsCheckSpec → Bool) (catalog : List TlsCheckSpec)
    → Perm (filter p catalog ++ filter (λ c. not (p c)) catalog) catalog
filter-split p [] = Perm.rfl
filter-split p (c ∷ cs) = elim (Bool-cases (p c)) [
  | inl shown ↦ rw shown (Perm.cons c (filter-split p cs))
  | inr not_shown ↦ rw not_shown (
      Perm.trans (perm_middle (filter p cs) (filter (λ d. not (p d)) cs))
        (Perm.cons c (filter-split p cs)))
]

hidden_checks-append :
    (catalog : List TlsCheckSpec) (section : Option Fields) (added : List Text) (id : Text)
    → hidden_checks catalog section (added ++ id ∷ [])
      ≡ filter (λ c. not (c.id == id)) (hidden_checks catalog section added)
unfolding hidden_checks mem_text
hidden_checks-append [] section added id = refl
hidden_checks-append (c ∷ cs) section added id = ground (
  arith,
  hidden_checks-append cs section added id,
  mem_text-append c.id added (id ∷ []),
  eq_iff id c.id,
  eq_iff c.id id,
)

-- Every check of the catalogue is either visible or offered behind "Add checks", as often as it is in
-- the catalogue.
visible-hidden_checks :
    (catalog : List TlsCheckSpec) (s : FormState)
    → Perm (visible catalog s ++ hidden_checks catalog (section_of s.content) s.added) catalog
unfolding visible_checks hidden_checks
visible-hidden_checks catalog s = filter-split _ catalog

-- A click on a hidden check takes the checks of its identifier, and no other, from the hidden ones.
hidden_checks-add :
    (catalog : List TlsCheckSpec) (s : FormState) (id : Text)
    → hidden_checks catalog
        (section_of (form_step catalog s (add id)).content)
        (form_step catalog s (add id)).added
      ≡ filter (λ c. not (c.id == id)) (hidden_checks catalog (section_of s.content) s.added)
unfolding form_step
hidden_checks-add catalog s id = hidden_checks-append catalog (section_of s.content) s.added id
