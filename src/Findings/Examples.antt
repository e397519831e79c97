-- ===== src/Findings/Examples.antt =====
-- The findings chapter of the sample report, and its theorems there.
use scan_tls.Common.{
  compare, str, ◌≤◌, [], ◌∷◌, map, filter, ◌≡◌, refl, All, Perm, IsSorted, sort_by, insert_by,
  lookup, ◌==◌,
}
use scan_tls.Report.Samples.{endpoints, findings, serialize_finding, high_finding}
use scan_tls.Locale.{plain_locale}
use scan_tls.Hosts.{severity_rank, includes, count_severity}
use scan_tls.Findings.{
  FindingFilters, compare_findings, finding_shown, render_findings, ranked, counts_total, max_total,
}
use scan_tls.Findings.View.{IsKnown, render_findings-IsSorted}
use scan_tls.Findings.Exposure.{IsRanking, ranked_lem}

abbrev high_only : FindingFilters
high_only = record { search = str "RC4"; severity = str "high" }

IsKnown-findings : All IsKnown findings
unfolding lookup ◌==◌
IsKnown-findings = (
  record { rank = 3; found = refl },
  (record { rank = 1; found = refl }, (record { rank = 0; found = refl }, tt)),
)

render_findings-IsSorted_example :
    Perm
      (render_findings plain_locale serialize_finding findings high_only).cards
      (filter (finding_shown plain_locale serialize_finding high_only) findings)
    × IsSorted
        (compare_findings plain_locale serialize_finding)
        (render_findings plain_locale serialize_finding findings high_only).cards
    × IsSorted
        (λ a b. compare (severity_rank a.severity) (severity_rank b.severity))
        (render_findings plain_locale serialize_finding findings high_only).cards
render_findings-IsSorted_example =
    render_findings-IsSorted plain_locale serialize_finding findings high_only IsKnown-findings

ranked_lem_example :
    IsRanking findings endpoints (ranked findings endpoints)
    × All
        (λ item. counts_total item.counts ≤ max_total (ranked findings endpoints))
        (ranked findings endpoints)
ranked_lem_example = ranked_lem findings endpoints

high_only_runs :
    (render_findings plain_locale serialize_finding findings high_only).cards ≡ high_finding ∷ []
unfolding render_findings sort_by ◌==◌ includes insert_by
high_only_runs = refl

ranked_runs : map (λ item. item.score) (ranked findings endpoints) ≡ 100 ∷ 11 ∷ []
unfolding ranked sort_by insert_by count_severity ◌==◌
ranked_runs = refl
