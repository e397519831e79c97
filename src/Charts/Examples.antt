-- ===== src/Charts/Examples.antt =====
-- The charts of a small count, and their theorems there.
use scan_tls.Common.{
  Text, str, ℕ, ◌<◌, List, [], ◌∷◌, map, none, some, ◌≡◌, refl, ◌⊎◌, lookup, ◌==◌,
}
use scan_tls.Report.Samples.{statistics}
use scan_tls.Score.{round_div}
use scan_tls.Findings.{levels}
use scan_tls.Charts.{
  horizontal_bars, LevelCounts, SeverityChart, severity_summary, unique_total, donut_compliance,
}
use scan_tls.Charts.Bars.{IsSeverityChart, severity_summary-IsSeverityChart}

abbrev versions : List (Text × ℕ)
versions = (str "TLS 1.2", 2) ∷ (str "TLS 1.3", 1) ∷ []

abbrev version_order : List Text
version_order = str "TLS 1.1" ∷ str "TLS 1.2" ∷ str "TLS 1.3" ∷ []

abbrev severities : List (Text × LevelCounts)
severities = (str "high", record { unique = 2; occurrences = 5 }) ∷ []

severity_summary-IsSeverityChart_example :
    ((unique_total severities levels ≡ 0) × (severity_summary severities ≡ none))
    ⊎ ((0 < unique_total severities levels)
        × ((chart : SeverityChart) × (severity_summary severities ≡ some chart)
            × IsSeverityChart severities chart))
severity_summary-IsSeverityChart_example = severity_summary-IsSeverityChart severities

donut-runs : donut_compliance statistics ≡ (33, 1188)
unfolding donut_compliance round_div
donut-runs = refl

bars-run : map (λ bar. bar.width) (horizontal_bars versions version_order) ≡ 0 ∷ 67 ∷ 33 ∷ []
unfolding horizontal_bars round_div lookup ◌==◌
bars-run = refl
