-- ===== src/Score/Examples.antt =====
-- The numbers of the sample report, and the theorems on scores at concrete inputs.
use scan_tls.Common.{str, ◌*◌, ◌≤◌, length, ◌≡◌, refl, ◌↔◌}
use scan_tls.Report.Samples.{web_endpoint, mail_endpoint, statistics}
use scan_tls.Score.{
  round_div, pct, grade_score, combine_score, compliant_suites, endpoint_score, posture_tone,
  high_risk, score_tone, warning,
}
use scan_tls.Score.Bounds.{endpoint_score-eq_100}

pct-of_8 : pct 1 8 ≡ 13
unfolding pct round_div
pct-of_8 = refl

mail_score : endpoint_score mail_endpoint ≡ 58
unfolding endpoint_score combine_score grade_score compliant_suites round_div
mail_score = refl

mail_tone : score_tone (endpoint_score mail_endpoint) ≡ warning
unfolding endpoint_score combine_score grade_score compliant_suites round_div score_tone
mail_tone = refl

sample_posture : posture_tone statistics ≡ high_risk
unfolding posture_tone
sample_posture = refl

endpoint_score-eq_100_example : (endpoint_score web_endpoint ≡ 100) ↔ (
    (web_endpoint.overall_grade ≡ str "A+")
    × (197 * length web_endpoint.cipher_suites
        ≤ 200 * length (compliant_suites web_endpoint.cipher_suites)))
endpoint_score-eq_100_example = endpoint_score-eq_100 web_endpoint
