-- ===== src/Charts/Bars.antt =====
-- The charts show the counts of the data: widths in range, nothing left out.
use scan_tls.Common.{
  Text, ℕ, ◌+◌, ◌*◌, ◌≤◌, ◌<◌, List, [], ◌∷◌, map, none, some, ◌≡◌, refl, ap, All, lookup, eqb,
  if◌then◌else◌, arith, ◌⊎◌, inl, inr, Bool-cases,
}
use scan_tls.Score.{sum}
use scan_tls.Score.Bounds.{pct_bounds}
use scan_tls.Findings.{levels}
use scan_tls.Charts.{
  count_of, Bar, horizontal_bars, LevelCounts, level_counts, unique_total, Part, SeverityChart,
  bar_parts, legend_of, severity_summary,
}

count_of-le : (counts : List (Text × ℕ)) (label : Text) → count_of counts label ≤ sum counts
unfolding count_of sum lookup
count_of-le [] label = omega arith
count_of-le ((k, n) ∷ counts) label = ground (arith, count_of-le counts label)

-- What a bar says of the counts.
abbrev IsBar : List (Text × ℕ) → Bar → Type 0
IsBar counts bar =
    (bar.count ≡ count_of counts bar.label)
    × (bar.width ≤ 100)
    × (2 * (sum counts * bar.width) ≤ 200 * bar.count + sum counts)
    × (200 * bar.count ≤ 2 * (sum counts * bar.width) + sum counts)

-- The bars are those of the labels in the given order, each with the count of its label, and as wide
-- as the nearest whole percentage of the sum of all counts, which is at most 100.
horizontal_bars_lem :
    (counts : List (Text × ℕ)) (order : List Text)
    → (map (λ bar. bar.label) (horizontal_bars counts order) ≡ order)
      × All (IsBar counts) (horizontal_bars counts order)
unfolding horizontal_bars
horizontal_bars_lem counts [] = (refl, tt)
horizontal_bars_lem counts (label ∷ order) =
    let (labels, bars) = horizontal_bars_lem counts order in
    let (le, low, high, _) =
      pct_bounds (count_of counts label) (sum counts) (count_of-le counts label) in
    (ap (◌∷◌ label) labels, ((refl, le, low, high), bars))

-- `flexGrow` of all parts
unfoldable pub total_grow : List Part → ℕ
total_grow [] = 0
total_grow (p ∷ ps) = p.grow + total_grow ps

total_grow-bar_parts :
    (counts : List (Text × LevelCounts)) (ls : List Text)
    → total_grow (bar_parts counts ls) ≡ unique_total counts ls
unfolding total_grow bar_parts unique_total
total_grow-bar_parts counts [] = refl
total_grow-bar_parts counts (level ∷ ls) = ground (arith, total_grow-bar_parts counts ls)

bar_parts-positive :
    (counts : List (Text × LevelCounts)) (ls : List Text)
    → All
        (λ p. (0 < p.grow) × (p.grow ≡ (level_counts counts p.level).unique))
        (bar_parts counts ls)
unfolding bar_parts
bar_parts-positive counts [] = tt
bar_parts-positive counts (level ∷ ls) =
    part ((level_counts counts level).unique) refl (bar_parts counts ls)
      (bar_parts-positive counts ls)
  where
    part :
        (n : ℕ)
        → n ≡ (level_counts counts level).unique
        → (rest : List Part)
        → All (λ p. (0 < p.grow) × (p.grow ≡ (level_counts counts p.level).unique)) rest
        → All
            (λ p. (0 < p.grow) × (p.grow ≡ (level_counts counts p.level).unique))
            (if eqb n 0 then rest else record { level = level; grow = n } ∷ rest)
    part n e rest h = elim (Bool-cases (eqb n 0)) [
      | inl none_found ↦ rw none_found h
      | inr found ↦ rw found ((ground arith, e), h)
    ]

legend_of-levels :
    (counts : List (Text × LevelCounts)) (ls : List Text)
    → map (λ item. item.level) (legend_of counts ls) ≡ ls
unfolding legend_of
legend_of-levels counts [] = refl
legend_of-levels counts (level ∷ ls) = ap (◌∷◌ level) (legend_of-levels counts ls)

-- What the chart of the severities says of the counts.
pub record IsSeverityChart (counts : List (Text × LevelCounts)) (chart : SeverityChart)
    : Type 0 where
  pub whole : total_grow chart.parts ≡ unique_total counts levels
  pub parts : All (λ p. (0 < p.grow) × (p.grow ≡ (level_counts counts p.level).unique)) chart.parts
  pub legend : map (λ item. item.level) chart.legend ≡ levels

-- Either there is no finding of the five levels, and the note says so; or there is one, and the chart
-- is drawn: its parts are not empty, are those of the counts and add up to all unique findings, and
-- its legend names every level.
pub severity_summary-IsSeverityChart :
    (counts : List (Text × LevelCounts))
    → ((unique_total counts levels ≡ 0) × (severity_summary counts ≡ none))
      ⊎ ((0 < unique_total counts levels)
          × ((chart : SeverityChart) × (severity_summary counts ≡ some chart)
              × IsSeverityChart counts chart))
unfolding severity_summary
severity_summary-IsSeverityChart counts = elim (Bool-cases (eqb (unique_total counts levels) 0)) [
  | inl zero_total ↦ inl (ground arith, rw zero_total refl)
  | inr positive ↦ inr (
    ground arith,
    (
      record { parts = bar_parts counts levels; legend = legend_of counts levels },
      rw positive refl,
      record {
        whole = total_grow-bar_parts counts levels;
        parts = bar_parts-positive counts levels;
        legend = legend_of-levels counts levels;
      },
    ),
  )
]
