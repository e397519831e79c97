-- ===== src/TlsChecks/Examples.antt =====
-- Runs of the profile section's functions, and their theorems at concrete inputs.
use scan_tls.Common.{
  str, true, false, List, [], ◌∷◌, none, some, ◌≡◌, refl, arith, ◌==◌, if◌then◌else◌,
}
use scan_tls.Json.{Json, Fields, end, field, get}
use scan_tls.TlsChecks.{
  TlsCheckSpec, entry_of, is_enabled, set_enabled, get_option, set_option, standard, invalid,
  listed, parse_ports, has_duplicate, is_separator,
}
use scan_tls.TlsChecks.Sections.{is_enabled-set_enabled, get_option-set_option}
use scan_tls.TlsChecks.Ports.{
  IsPortList, show_ports, parse_ports-IsPortList, parse_ports-show_ports,
}
use scan_tls.TlsChecks.Form.{
  FormState, section_of, form_step, toggle, type_ports, ports_value, is_enabled-toggle,
  get_option-type_ports,
}

abbrev section : Fields
section =
    field (str "redirect")
      (Json.obj
        (field (str "enabled") (Json.bool true) (field (str "ports") (Json.ports (80 ∷ [])) end)))
      (field (str "hsts") (Json.bool true) end)

abbrev content : Fields
content =
    field (str "name") (Json.text (str "web"))
      (field (str "checks") (Json.obj (field (str "dns") Json.null end)) end)

abbrev catalog : List TlsCheckSpec
catalog =
    record { id = str "hsts"; family = str "http"; recommended = true }
    ∷ record { id = str "ct"; family = str "cert"; recommended = false }
    ∷ record { id = str "redirect"; family = str "http"; recommended = true }
    ∷ []

is_enabled-set_enabled_example :
    is_enabled (some (set_enabled (some section) (str "hsts") false)) (str "redirect")
    ≡ (if str "hsts" == str "redirect" then false else is_enabled (some section) (str "redirect"))
is_enabled-set_enabled_example =
    is_enabled-set_enabled (some section) (str "hsts") (str "redirect") false

get_option-set_option_example :
    get_option
      (some (set_option (some section) (str "redirect") (str "ports") none))
      (str "redirect")
      (str "ports")
    ≡ (if str "redirect" == str "redirect"
        then if str "ports" == str "ports"
          then none
          else get_option (some section) (str "redirect") (str "ports")
        else get_option (some section) (str "redirect") (str "ports"))
unfolding entry_of get ◌==◌
get_option-set_option_example =
    get_option-set_option (some section) (str "redirect") (str "ports") (str "redirect")
      (str "ports") none
      (field (str "enabled") (Json.bool true) (field (str "ports") (Json.ports (80 ∷ [])) end)) refl

web_ports : IsPortList (443 ∷ 8443 ∷ [])
unfolding has_duplicate
web_ports = record {
  in_range = ((omega arith, omega arith), ((omega arith, omega arith), tt));
  no_duplicate = refl;
  nonempty = λ e. cc;
  at_most_16 = omega arith;
}

parse_ports_runs : parse_ports (str "443;  8443,") ≡ listed (443 ∷ 8443 ∷ [])
unfolding parse_ports is_separator
parse_ports_runs = refl

parse_ports_duplicate : parse_ports (str "443 443") ≡ invalid
unfolding parse_ports is_separator
parse_ports_duplicate = refl

parse_ports_blank : parse_ports (str " , ") ≡ standard
unfolding parse_ports is_separator
parse_ports_blank = refl

parse_ports_range : parse_ports (str "65536") ≡ invalid
unfolding parse_ports is_separator
parse_ports_range = refl

parse_ports-IsPortList_example : IsPortList (443 ∷ 8443 ∷ [])
parse_ports-IsPortList_example =
    parse_ports-IsPortList (str "443;  8443,") (443 ∷ 8443 ∷ []) parse_ports_runs

parse_ports-show_ports_example :
    parse_ports (show_ports (443 ∷ 8443 ∷ [])) ≡ listed (443 ∷ 8443 ∷ [])
parse_ports-show_ports_example = parse_ports-show_ports (443 ∷ 8443 ∷ []) web_ports

abbrev form : FormState
form = record { content = content; added = []; list_open = false }

is_enabled-toggle_example :
    is_enabled (section_of (form_step catalog form (toggle (str "ct") true)).content) (str "ct")
    ≡ (if str "ct" == str "ct" then true else is_enabled (section_of content) (str "ct"))
is_enabled-toggle_example = is_enabled-toggle catalog form (str "ct") (str "ct") true

get_option-type_ports_example :
    get_option
      (section_of (type_ports catalog (str "ct") (str "ports") (str "443, 0") form).content)
      (str "ct")
      (str "ports")
    ≡ ports_value
        (get_option (section_of content) (str "ct") (str "ports"))
        (parse_ports (str "443, 0"))
get_option-type_ports_example =
    get_option-type_ports catalog (str "ct") (str "ports") (str "443, 0") form
