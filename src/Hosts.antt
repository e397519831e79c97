-- ===== src/Hosts.antt =====
-- tls_scanner/exports/assets/html/js/report.js, the endpoint chapter: `hostKey`,
-- `groupEndpointsByHost`, `hostSummary`, `compactCounts` and the rendering of `initEndpoints`, up to
-- the cards (a card shows the entry that stands for it here). `none` stands for the TypeError that
-- `hostSummary` throws on a group without endpoints. `serialize` is
-- `JSON.stringify` of an endpoint, and `locale` the browser's text comparison.
pub mod Grouping
pub mod Summary
pub mod View
mod Examples
use scan_tls.Common.{
  Text, str, ℕ, ◌+◌, ◌-◌, ◌*◌, Bool, true, false, not, List, [], ◌∷◌, ◌++◌, map, Option, none, some,
  eqb, ltb, length, filter, find?, foldl, flat_map, take, or_else, or_text, lookup, distinct, ◌==◌,
  ◌&&◌, ◌||◌, is_empty, if◌then◌else◌, Ordering, compare, then_by, sort_by, Group, group_by,
}
use scan_tls.Value.{show_nat}
use scan_tls.Report.{Endpoint, Finding}
use scan_tls.Locale.{Locale}
use scan_tls.Score.{endpoint_score, round_div}

-- `severityOrder`
abbrev pub severity_order : List (Text × ℕ)
severity_order =
    (str "critical", 0)
    ∷ (str "high", 1)
    ∷ (str "medium", 2)
    ∷ (str "low", 3)
    ∷ (str "informational", 4)
    ∷ (str "none", 5)
    ∷ []

-- `gradeOrder`
abbrev pub grade_order : List (Text × ℕ)
grade_order =
    (str "A+", 0)
    ∷ (str "A", 1)
    ∷ (str "B", 2)
    ∷ (str "C", 3)
    ∷ (str "D", 4)
    ∷ (str "F", 5)
    ∷ (str "Not Tested", 6)
    ∷ []

-- `gradeOrder[grade] ?? 99` and `severityOrder[severity] ?? 9`
unfoldable pub grade_rank : Text → ℕ
unfolding lookup ◌==◌
grade_rank grade = or_else (lookup grade grade_order) 99

unfoldable pub severity_rank : Text → ℕ
unfolding lookup ◌==◌
severity_rank severity = or_else (lookup severity severity_order) 9

-- `hostKey`
pub host_key : Endpoint → Text
host_key e = or_text e.hostname (or_text e.ip_address (or_text e.host_id e.endpoint_id))

module _ (locale : Locale) where
  -- the comparator of `groupEndpointsByHost`
  pub compare_endpoints : Endpoint → Endpoint → Ordering
  compare_endpoints a b =
      then_by (compare a.port b.port) (locale.compare a.endpoint_id b.endpoint_id)

  pub sort_group : Group Endpoint → Group Endpoint
  sort_group g = record { key = g.key; members = sort_by compare_endpoints g.members }

  -- `groupEndpointsByHost`
  pub group_endpoints_by_host : List Endpoint → List (Group Endpoint)
  unfolding sort_group
  group_endpoints_by_host endpoints = map sort_group (group_by host_key endpoints)

pub record HostSummary : Type 0 where
  pub score : ℕ
  pub worst_grade : Text
  pub highest_severity : Text
  pub findings : ℕ
  pub failed : ℕ
  pub ports : List Text
  pub protocols : List Text
  pub cert_statuses : List Text
  pub trust : List Text

-- `scores.reduce((total, item) => total + item, 0)`
pub total_of : (Endpoint → ℕ) → List Endpoint → ℕ
total_of f [] = 0
total_of f (e ∷ es) = f e + total_of f es

-- one round of the two `reduce` calls that look for the worst value
abbrev pub keep_greater : (Text → ℕ) → Text → Text → Text
keep_greater rank worst t = if ltb (rank worst) (rank t) then t else worst

abbrev pub keep_less : (Text → ℕ) → Text → Text → Text
keep_less rank worst t = if ltb (rank t) (rank worst) then t else worst

abbrev pub is_failed : Endpoint → Bool
is_failed e = not (e.compliance_status == str "compliant")

-- `${endpoint.port}/${endpoint.protocol}`
pub port_label : Endpoint → Text
unfolding show_nat
port_label e = show_nat e.port ++ (str "/" ++ e.protocol)

abbrev pub present : Text → Bool
present t = not (is_empty t)

-- `hostSummary` of the endpoints of a group
pub host_summary : List Endpoint → Option HostSummary
unfolding total_of port_label
host_summary [] = none
host_summary (first ∷ rest) =
    let endpoints : List Endpoint = first ∷ rest in
    some (record {
      score = round_div (total_of endpoint_score endpoints) (length endpoints);
      worst_grade =
          foldl (keep_greater grade_rank) first.overall_grade
            (map (λ e. e.overall_grade) endpoints);
      highest_severity =
          foldl (keep_less severity_rank) first.highest_severity
            (map (λ e. e.highest_severity) endpoints);
      findings = total_of (λ e. e.finding_count) endpoints;
      failed = length (filter is_failed endpoints);
      ports = distinct (map port_label endpoints);
      protocols = distinct (flat_map (λ e. e.supported_tls_versions) endpoints);
      cert_statuses = distinct (filter present (map (λ e. e.certificate.status) endpoints));
      trust = distinct (filter present (map (λ e. e.certificate.trust_classification) endpoints));
    })

-- The options of the select elements `compliance` and `sort`.
pub data HostSort : Type 0 where
  by_severity by_score by_hostname by_grade by_findings by_ports by_expiration : HostSort

-- A group with its summary and its first endpoint, which the comparator reads again at each call.
pub record HostEntry : Type 0 where
  pub group : Group Endpoint
  pub first : Endpoint
  pub summary : HostSummary

pub host_entry : Group Endpoint → Option HostEntry
host_entry g = elim g.members [
  | [] ↦ none
  | first ∷ rest ↦ elim (host_summary (first ∷ rest)) [
    | none ↦ none
    | some s ↦ some (record { group = g; first = first; summary = s })
  ]
]

pub host_entries : List (Group Endpoint) → Option (List HostEntry)
unfolding host_entry
host_entries [] = some []
host_entries (g ∷ gs) = elim (host_entry g) [
  | none ↦ none
  | some entry ↦ elim (host_entries gs) [ none ↦ none | some es ↦ some (entry ∷ es) ]
]

-- `text.includes(q)`
unfoldable pub starts_with : Text → Text → Bool
starts_with s [] = true
starts_with [] (c ∷ q) = false
starts_with (a ∷ s) (c ∷ q) = eqb a c && starts_with s q

unfoldable pub includes : Text → Text → Bool
unfolding starts_with
includes [] q = starts_with [] q
includes (a ∷ s) q = starts_with (a ∷ s) q || includes s q

pub record EndpointView : Type 0 where
  pub hosts : List HostEntry
  pub caption : Text
  -- whether the note "No endpoints match the current filters." is there
  pub shows_empty : Bool

-- `!groups.length`
abbrev pub no_hosts : List HostEntry → Bool
no_hosts [] = true
no_hosts (_ ∷ _) = false

abbrev pub host_limit : ℕ
host_limit = 500

pub caption_of : List HostEntry → List HostEntry → Text
unfolding show_nat
caption_of groups visible =
    show_nat (length visible)
    ++ (str " host(s) / "
        ++ (show_nat (length (flat_map (λ h. h.group.members) groups))
            ++ (str " endpoint(s) shown"
                ++ (if ltb (length visible) (length groups)
                    then str " - first 500 hosts rendered"
                    else []))))

module _ (locale : Locale) (serialize : Endpoint → Text) where
  -- The filter of `render`; `none` is the option "all".
  pub endpoint_shown : Text → Option Text → Endpoint → Bool
  endpoint_shown query compliance e =
      elim compliance [ none ↦ true | some c ↦ e.compliance_status == c ]
      && includes (locale.lower (serialize e)) (locale.lower query)

  -- the comparator of `groups.sort`
  pub compare_hosts : HostSort → HostEntry → HostEntry → Ordering
  compare_hosts by_score a b = compare b.summary.score a.summary.score
  compare_hosts by_findings a b = compare b.summary.findings a.summary.findings
  compare_hosts by_ports a b = compare (length b.group.members) (length a.group.members)
  compare_hosts by_expiration a b =
      locale.compare a.first.certificate.valid_until b.first.certificate.valid_until
  compare_hosts by_grade a b =
      compare (grade_rank a.summary.worst_grade) (grade_rank b.summary.worst_grade)
  compare_hosts by_severity a b =
      then_by
        (compare (severity_rank a.summary.highest_severity)
          (severity_rank b.summary.highest_severity))
        (compare b.summary.findings a.summary.findings)
  compare_hosts by_hostname a b = locale.compare a.group.key b.group.key

  -- `render` of `initEndpoints`
  pub render_endpoints : List Endpoint → Text → Option Text → HostSort → Option EndpointView
  unfolding group_endpoints_by_host host_entries caption_of compare_hosts endpoint_shown
  render_endpoints endpoints query compliance sort =
      elim (host_entries
        (group_endpoints_by_host locale (filter (endpoint_shown query compliance) endpoints))) [
          | none ↦ none
          | some entries ↦
              let groups = sort_by (compare_hosts sort) entries in
              let visible = take host_limit groups in
              some (record {
                hosts = visible;
                caption = caption_of groups visible;
                shows_empty = no_hosts groups;
              })
        ]

-- One entry of the counts of `compactCounts` and `initExposure`: the findings of the severity among
-- the ids
unfoldable pub count_severity : List Finding → Text → List Text → ℕ
count_severity findings severity [] = 0
count_severity findings severity (id ∷ ids) =
    let rest = count_severity findings severity ids in
    elim (find? (λ finding. finding.finding_id == id) findings) [
      | none ↦ rest
      | some finding ↦ if finding.severity == severity then 1 + rest else rest
    ]
