-- ===== src/Charts.antt =====
-- tls_scanner/exports/assets/html/js/report.js, the numbers behind the charts: `horizontalBars`,
-- `donutCompliance`, `initSeveritySummary`, `initKpis` and `priorityActions`. A chart is what it
-- draws: labels, counts and widths; its markup is not modelled. A count that the data leaves out is 0.
pub mod Bars
mod Examples
use scan_tls.Common.{
  Text, str, ℕ, ◌+◌, ◌*◌, Bool, true, false, List, [], ◌∷◌, ◌++◌, map, Option, none, some, or_else,
  lookup, eqb, if◌then◌else◌, ◌==◌, take,
}
use scan_tls.Value.{show_nat}
use scan_tls.Report.{Statistics}
use scan_tls.Score.{pct, sum}
use scan_tls.Findings.{levels}

-- `Number(counts[label] || 0)`
unfoldable pub count_of : List (Text × ℕ) → Text → ℕ
count_of counts label = or_else (lookup label counts) 0

pub record Bar : Type 0 where
  pub label : Text
  pub count : ℕ
  -- in per cent
  pub width : ℕ

-- `horizontalBars`, for the labels of `order`
unfoldable pub horizontal_bars : List (Text × ℕ) → List Text → List Bar
unfolding count_of pct sum
horizontal_bars counts [] = []
horizontal_bars counts (label ∷ order) =
    record {
      label = label;
      count = count_of counts label;
      width = pct (count_of counts label) (sum counts);
    }
    ∷ horizontal_bars counts order

-- `donutCompliance`: the percentage, and ten times the degrees of the compliant part (`value * 3.6`)
unfoldable pub donut_compliance : Statistics → ℕ × ℕ
unfolding pct
donut_compliance s = let value = pct s.compliant_endpoints s.total_endpoints in (value, value * 36)

-- An entry of `data.statistics.findings_by_severity`.
pub record LevelCounts : Type 0 where
  pub unique : ℕ
  pub occurrences : ℕ

abbrev pub no_counts : LevelCounts
no_counts = record { unique = 0; occurrences = 0 }

-- `counts[level] || {}`
unfoldable pub level_counts : List (Text × LevelCounts) → Text → LevelCounts
level_counts counts level = or_else (lookup level counts) no_counts

-- `levels.reduce((sum, level) => sum + …, 0)`
unfoldable pub unique_total : List (Text × LevelCounts) → List Text → ℕ
unfolding level_counts
unique_total counts [] = 0
unique_total counts (level ∷ ls) = (level_counts counts level).unique + unique_total counts ls

-- A part of the stacked bar: its level and its `flexGrow`.
pub record Part : Type 0 where
  pub level : Text
  pub grow : ℕ

pub record LegendItem : Type 0 where
  pub level : Text
  pub unique : ℕ
  pub occurrences : ℕ

pub record SeverityChart : Type 0 where
  pub parts : List Part
  pub legend : List LegendItem

-- the parts that the loop appends to `bar`
unfoldable pub bar_parts : List (Text × LevelCounts) → List Text → List Part
unfolding level_counts
bar_parts counts [] = []
bar_parts counts (level ∷ ls) =
    let n = (level_counts counts level).unique in
    if eqb n 0
    then bar_parts counts ls
    else record { level = level; grow = n } ∷ bar_parts counts ls

unfoldable pub legend_of : List (Text × LevelCounts) → List Text → List LegendItem
unfolding level_counts
legend_of counts [] = []
legend_of counts (level ∷ ls) =
    let n = level_counts counts level in
    record { level = level; unique = n.unique; occurrences = n.occurrences } ∷ legend_of counts ls

-- `initSeveritySummary`; `none` is the note that there are no findings
unfoldable pub severity_summary : List (Text × LevelCounts) → Option SeverityChart
unfolding unique_total bar_parts legend_of
severity_summary counts =
    if eqb (unique_total counts levels) 0
    then none
    else some (record { parts = bar_parts counts levels; legend = legend_of counts levels })

-- `initKpis`: the labels and the values
unfoldable pub kpis : Statistics → List (Text × Text)
unfolding pct show_nat
kpis s =
    (str "Hosts", show_nat s.total_hosts)
    ∷ (str "Endpoints", show_nat s.total_endpoints)
    ∷ (str "High risk findings", show_nat (s.critical_findings + s.high_findings))
    ∷ (str "Total findings", show_nat s.finding_occurrences)
    ∷ (
      str "Compliant endpoints",
      show_nat (pct s.compliant_endpoints s.total_endpoints) ++ str "% compliant",
    )
    ∷ []

-- An entry of `data.statistics.top_findings`.
pub record TopFinding : Type 0 where
  pub finding_id : Text
  pub title : Text
  pub severity : Text
  pub affected_endpoints : ℕ

-- The label, the text and the tone of a priority action.
abbrev pub Action : Type 0
Action = Text × Text × Text

abbrev pub action_of : TopFinding → Action
action_of f = (f.title, show_nat f.affected_endpoints ++ str " impacted endpoint(s)", f.severity)

-- `priorityActions`
unfoldable pub priority_actions : List TopFinding → List Action
priority_actions [] =
    (str "No recurring weaknesses", str "Maintain monitoring cadence", str "informational") ∷ []
priority_actions (f ∷ fs) = map action_of (take 3 (f ∷ fs))
