-- ===== src/Findings.antt =====
-- tls_scanner/exports/assets/html/js/report.js, the findings chapter: the filter, the order and the
-- reset of `initFindings`, and the ranking of `initExposure`. A card stands for its finding.
-- `serialize` is `JSON.stringify` of a finding.
pub mod View
pub mod Counts
pub mod Exposure
mod Examples
use scan_tls.Common.{
  Text, str, ℕ, ◌+◌, ◌*◌, Bool, true, false, List, [], ◌∷◌, ◌++◌, map, Option, none, some, length,
  filter, take, find?, mem_text, lookup, ◌==◌, ◌&&◌, ltb, foldl, if◌then◌else◌, Ordering, compare,
  then_by, sort_by, is_empty,
}
use Prim.Native.Nat.{max}
use scan_tls.Value.{show_nat}
use scan_tls.Report.{Endpoint, Finding}
use scan_tls.Locale.{Locale}
use scan_tls.Hosts.{severity_order, includes, count_severity}

-- `severityOrder[a] - severityOrder[b]`; where one of them is no key the difference is NaN
unfoldable pub compare_severity : Text → Text → Ordering
compare_severity a b = elim (lookup a severity_order) [
  | none ↦ Ordering.eq
  | some x ↦ elim (lookup b severity_order) [ none ↦ Ordering.eq | some y ↦ compare x y ]
]

-- the filters of `initFindings`: the text of `search`, and the value of `sev`
pub record FindingFilters : Type 0 where
  pub search : Text
  pub severity : Text

-- what `resetFindingFilters` sets, and the page starts with
abbrev pub no_filters : FindingFilters
no_filters = record { search = []; severity = str "all" }

pub record FindingView : Type 0 where
  pub cards : List Finding
  pub caption : Text
  pub shows_empty : Bool

module _ (locale : Locale) (serialize : Finding → Text) where
  -- the comparator of `render`
  pub compare_findings : Finding → Finding → Ordering
  compare_findings a b = then_by (compare_severity a.severity b.severity) (
      then_by (compare (length b.affected_endpoint_ids) (length a.affected_endpoint_ids))
        (locale.compare a.title b.title))

  -- the filter of `render`
  pub finding_shown : FindingFilters → Finding → Bool
  finding_shown filters f =
      (if filters.severity == str "all" then true else f.severity == filters.severity)
      && includes (locale.lower (serialize f)) (locale.lower filters.search)

  -- `render` of `initFindings`
  pub render_findings : List Finding → FindingFilters → FindingView
  unfolding compare_findings finding_shown
  render_findings findings filters =
      let shown = sort_by compare_findings (filter (finding_shown filters) findings) in
      record {
        cards = shown;
        caption = show_nat (length shown) ++ str " shown";
        shows_empty = elim shown [ [] ↦ true | _ ∷ _ ↦ false ];
      }

-- the keys of `counts`
abbrev pub levels : List Text
levels = str "critical" ∷ str "high" ∷ str "medium" ∷ str "low" ∷ str "informational" ∷ []

-- The counts of `initExposure` for one endpoint.
pub record SeverityCounts : Type 0 where
  pub critical : ℕ
  pub high : ℕ
  pub medium : ℕ
  pub low : ℕ
  pub informational : ℕ

pub severity_counts : List Finding → List Text → SeverityCounts
severity_counts findings ids = record {
  critical = count_severity findings (str "critical") ids;
  high = count_severity findings (str "high") ids;
  medium = count_severity findings (str "medium") ids;
  low = count_severity findings (str "low") ids;
  informational = count_severity findings (str "informational") ids;
}

-- `weights`, multiplied with the counts and added up
pub exposure_score : SeverityCounts → ℕ
exposure_score c = c.critical * 100 + c.high * 10 + c.medium * 3 + c.low * 1 + c.informational * 0

pub counts_total : SeverityCounts → ℕ
counts_total c = c.critical + c.high + c.medium + c.low + c.informational

pub record Exposed : Type 0 where
  pub endpoint : Endpoint
  pub counts : SeverityCounts
  pub score : ℕ

-- whether each finding among the ids has one of the five severities; else the score is NaN
pub severities_known : List Finding → List Text → Bool
unfolding ◌==◌ mem_text
severities_known findings [] = true
severities_known findings (id ∷ ids) =
    let rest = severities_known findings ids in
    elim (find? (λ finding. finding.finding_id == id) findings) [
      | none ↦ rest
      | some finding ↦ mem_text finding.severity levels && rest
    ]

pub exposed_of : List Finding → Endpoint → Exposed
unfolding severity_counts exposure_score
exposed_of findings endpoint =
    let counts = severity_counts findings endpoint.finding_ids in
    record { endpoint = endpoint; counts = counts; score = exposure_score counts }

pub compare_exposed : Exposed → Exposed → Ordering
compare_exposed a b = compare b.score a.score

-- `item.score > 0`, which NaN is not
pub is_exposed : List Finding → Exposed → Bool
unfolding severities_known
is_exposed findings item = severities_known findings item.endpoint.finding_ids && ltb 0 item.score

-- `ranked` before its `slice(0, 6)`
pub exposed_endpoints : List Finding → List Endpoint → List Exposed
unfolding exposed_of compare_exposed is_exposed
exposed_endpoints findings endpoints =
    sort_by compare_exposed (filter (is_exposed findings) (map (exposed_of findings) endpoints))

-- `ranked`
pub ranked : List Finding → List Endpoint → List Exposed
unfolding exposed_endpoints
ranked findings endpoints = take 6 (exposed_endpoints findings endpoints)

-- `max`, over a list that is not empty where the page reads it
pub max_total : List Exposed → ℕ
unfolding counts_total
max_total [] = 0
max_total (item ∷ items) = max (counts_total item.counts) (max_total items)
