-- ===== src/Score.antt =====
-- tls_scanner/exports/assets/html/js/report.js, the numbers of the page: `pct`, `sum`,
-- `endpointScore`, `scoreTone`, `postureTone` and `postureLabel`, with the tables that they read.
-- `Math.round(a / b)` of naturals is `round_div a b`; the quotients here are far from the point
-- where a double can no longer tell a half from its neighbours.
pub mod Bounds
mod Examples
use scan_tls.Common.{
  Text, str, ℕ, suc, ◌+◌, ◌*◌, ◌/◌, Bool, true, false, List, [], ◌∷◌, eqb, leb, length, filter,
  or_else, lookup, ◌==◌, if◌then◌else◌, ◌||◌, not,
}
use scan_tls.Report.{Endpoint, Suite, Statistics}

-- `Math.round(a / b)` for a positive `b`: halves are rounded up
unfoldable pub round_div : ℕ → ℕ → ℕ
round_div a b = (2 * a + b) / (2 * b)

-- `pct`
unfoldable pub pct : ℕ → ℕ → ℕ
pct part total = if eqb total 0 then 0 else round_div (part * 100) total

-- `sum`, over the entries of an object
unfoldable pub sum : List (Text × ℕ) → ℕ
sum [] = 0
sum ((k, n) ∷ m) = n + sum m

-- `gradeScores` of `endpointScore`
abbrev pub grade_scores : List (Text × ℕ)
grade_scores =
    (str "A+", 100)
    ∷ (str "A", 95)
    ∷ (str "B", 80)
    ∷ (str "C", 65)
    ∷ (str "D", 50)
    ∷ (str "F", 0)
    ∷ (str "Not Tested", 0)
    ∷ []

-- `gradeScores[grade] ?? 0`
unfoldable pub grade_score : Text → ℕ
unfolding lookup ◌==◌
grade_score grade = or_else (lookup grade grade_scores) 0

-- the filter of `endpointScore`
unfoldable pub compliant_suites : List Suite → List Suite
compliant_suites suites = filter (λ suite. suite.compliance_status == str "compliant") suites

-- the part of `endpointScore` behind the lookup of the grade
unfoldable pub combine_score : ℕ → List Suite → ℕ
combine_score grade [] = grade
combine_score grade (suite ∷ suites) =
    let all_suites : List Suite = suite ∷ suites in
    let communication =
      round_div (length (compliant_suites all_suites) * 100) (length all_suites) in
    round_div (grade + communication) 2

-- `endpointScore`
unfoldable pub endpoint_score : Endpoint → ℕ
endpoint_score endpoint = combine_score (grade_score endpoint.overall_grade) endpoint.cipher_suites

-- the class names of `scoreTone`
pub data ScoreTone : Type 0 where
  good info warning bad : ScoreTone

-- `scoreTone`
unfoldable pub score_tone : ℕ → ScoreTone
score_tone score =
    if leb 90 score
    then good
    else if leb 70 score
    then info
    else if leb 50 score
    then warning
    else bad

pub data Posture : Type 0 where
  strong needs_attention high_risk : Posture

abbrev pub is_set : ℕ → Bool
is_set n = not (eqb n 0)

-- `postureTone`
unfoldable pub posture_tone : Statistics → Posture
posture_tone s =
    if is_set s.critical_findings || is_set s.high_findings || is_set s.non_compliant_endpoints
    then high_risk
    else if is_set s.endpoints_with_errors || is_set s.endpoints_not_fully_tested
    then needs_attention
    else strong

-- `postureLabel`
unfoldable pub posture_label : Posture → Text
posture_label strong = str "Strong"
posture_label high_risk = str "High risk"
posture_label needs_attention = str "Needs attention"
