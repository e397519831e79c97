-- ===== src/TlsChecks.antt =====
-- frontend/src/lib/tlsChecks.ts: the `checks.tls` section of a scan profile.
pub mod Sections
mod Catalog
pub mod Ports
pub mod Form
mod Examples
use scan_tls.Common.{
  Text, str, ℕ, ◌+◌, ◌-◌, ◌*◌, Bool, true, false, not, List, [], ◌∷◌, ◌++◌, map, Option, none, some,
  eqb, leb, ltb, length, filter, any, mem_text, is_empty, is_space, ◌==◌, ◌&&◌, ◌||◌, if◌then◌else◌,
  Group, group_by,
}
use scan_tls.Json
use scan_tls.Json.{Json, Fields, end, field, get, put, remove, index_fields}
use scan_tls.Numbers.{is_digit}

-- `TlsCheckSpec`, with the fields that these functions read
pub record TlsCheckSpec : Type 0 where
  pub id : Text
  pub family : Text
  pub recommended : Bool

-- `section ?? {}`
pub or_empty : Option Fields → Fields
or_empty none = end
or_empty (some section) = section

-- `section?.[id]`
pub entry_of : Option Fields → Text → Option Json
entry_of none id = none
entry_of (some section) id = get id section

-- `value === true`
abbrev pub is_true : Option Json → Bool
is_true (some (Json.bool b)) = b
is_true _ = false

-- `isEnabled` of an entry
pub entry_enabled : Option Json → Bool
entry_enabled (some (Json.bool b)) = b
entry_enabled (some (Json.obj fs)) = is_true (get (str "enabled") fs)
entry_enabled _ = false

-- `isEnabled`
pub is_enabled : Option Fields → Text → Bool
is_enabled section id = entry_enabled (entry_of section id)

-- `{ enabled: b }`
abbrev pub enabled_entry : Bool → Fields
enabled_entry b = field (str "enabled") (Json.bool b) end

-- `setEnabled`
pub set_enabled : Option Fields → Text → Bool → Fields
set_enabled section id enabled =
    if enabled
    then put id (Json.obj (enabled_entry true)) (or_empty section)
    else remove id (or_empty section)

-- `getOption` of an entry
pub entry_option : Option Json → Text → Option Json
entry_option (some (Json.obj fs)) name = get name fs
entry_option (some (Json.ports ns)) name =
    if name == str "length" then some (Json.num (length ns)) else get name (index_fields 0 ns)
entry_option _ name = none

-- `getOption`
pub get_option : Option Fields → Text → Text → Option Json
get_option section id name = entry_option (entry_of section id) name

-- the mapping that `setOption` starts from
pub entry_mapping : Option Json → Fields
entry_mapping (some (Json.obj fs)) = fs
entry_mapping (some (Json.ports ns)) = index_fields 0 ns
entry_mapping current = enabled_entry (is_true current)

-- the write of `setOption` into the mapping; `none` is `undefined`
pub set_entry : Text → Option Json → Fields → Fields
set_entry name none entry = remove name entry
set_entry name (some v) entry = put name v entry

-- `setOption`
pub set_option : Option Fields → Text → Text → Option Json → Fields
set_option section id name value =
    put id (Json.obj (set_entry name value (entry_mapping (entry_of section id))))
      (or_empty section)

-- The results of `parsePorts`: `undefined`, `null` and the ports.
pub data PortsResult : Type 0 where
  standard invalid : PortsResult
  listed : List ℕ → PortsResult

-- the class `[\s,;]`
unfoldable pub is_separator : ℕ → Bool
unfolding is_space
is_separator c = is_space c || eqb c b',' || eqb c b';'

-- a part that is not empty
abbrev pub add_part : Text → List Text → List Text
add_part part parts = if is_empty part then parts else part ∷ parts

-- `text.split(/[\s,;]+/).filter(Boolean)`, with the part that is being read
unfoldable pub split_parts : Text → Text → List Text
split_parts part [] = add_part part []
split_parts part (c ∷ s) = elim (is_separator c) [
  | true ↦ add_part part (split_parts [] s)
  | false ↦ split_parts (part ++ c ∷ []) s
]

-- `Number(p)` of digits
unfoldable pub digits_value : ℕ → Text → ℕ
digits_value acc [] = acc
digits_value acc (c ∷ s) = digits_value (acc * 10 + (c - b'0')) s

unfoldable pub all_digits : Text → Bool
all_digits [] = true
all_digits (c ∷ s) = is_digit c && all_digits s

-- `/^\d{1,5}$/.test(p) ? Number(p) : NaN`; `none` is NaN
unfoldable pub port_number : Text → Option ℕ
unfolding digits_value all_digits
port_number p =
    if all_digits p && leb 1 (length p) && leb (length p) 5 then some (digits_value 0 p) else none

-- the ports, unless one is not in 1..65535
unfoldable pub port_numbers : List Text → Option (List ℕ)
unfolding port_number
port_numbers [] = some []
port_numbers (p ∷ ps) =
    let rest = port_numbers ps in
    elim (port_number p) [
      | none ↦ none
      | some n ↦
          if leb 1 n && leb n 65535
          then elim rest [ none ↦ none | some ns ↦ some (n ∷ ns) ]
          else none
    ]

unfoldable pub has_port : ℕ → List ℕ → Bool
has_port n [] = false
has_port n (m ∷ ms) = eqb m n || has_port n ms

-- `new Set(ports).size !== ports.length`
unfoldable pub has_duplicate : List ℕ → Bool
unfolding has_port
has_duplicate [] = false
has_duplicate (n ∷ ns) = has_port n ns || has_duplicate ns

-- the checks of `parsePorts` behind the range
unfoldable pub accept_ports : Option (List ℕ) → PortsResult
unfolding has_duplicate
accept_ports none = invalid
accept_ports (some ns) = if has_duplicate ns || ltb 16 (length ns) then invalid else listed ns

abbrev pub ports_of_parts : List Text → PortsResult
ports_of_parts [] = standard
ports_of_parts (p ∷ ps) = accept_ports (port_numbers (p ∷ ps))

-- `parsePorts`
unfoldable pub parse_ports : Text → PortsResult
unfolding split_parts port_numbers accept_ports
parse_ports s = ports_of_parts (split_parts [] s)

-- `Object.fromEntries(….map((c) => [c.id, { enabled: true }]))`
pub enabled_entries : List TlsCheckSpec → Fields → Fields
enabled_entries [] section = section
enabled_entries (c ∷ cs) section =
    enabled_entries cs (put c.id (Json.obj (enabled_entry true)) section)

-- `recommendedSection`
pub recommended_section : List TlsCheckSpec → Fields
recommended_section catalog = enabled_entries (filter (λ c. c.recommended) catalog) end

-- `visibleChecks`
pub visible_checks : List TlsCheckSpec → Option Fields → List Text → List TlsCheckSpec
visible_checks catalog section added =
    filter (λ c. c.recommended || is_enabled section c.id || mem_text c.id added) catalog

-- `groupByFamily`
pub group_by_family : List TlsCheckSpec → List (Group TlsCheckSpec)
group_by_family checks = group_by (λ c. c.family) checks

-- `(content.checks as Record<string, unknown>) ?? {}`, spread; null, a Boolean and a number have no
-- fields to spread, and a text is excluded by the type
pub spread : Option Json → Fields
spread (some (Json.ports ns)) = index_fields 0 ns
spread (some (Json.obj fs)) = fs
spread _ = end

abbrev pub is_end : Fields → Bool
is_end end = true
is_end (field _ _ _) = false

-- `withTlsSection`
pub with_tls_section : Fields → Fields → Fields
with_tls_section content section =
    let checks = spread (get (str "checks") content) in
    put (str "checks")
      (Json.obj (
        if is_end section
        then remove (str "tls") checks
        else put (str "tls") (Json.obj section) checks))
      content
