-- ===== src/Score/Bounds.antt =====
-- The percentages and scores of the page lie in their ranges, and what a score says.
use scan_tls.Common.{
  Text, str, ℕ, suc, zero, ◌+◌, ◌*◌, ◌≤◌, ◌<◌, List, [], ◌∷◌, length, length-filter-le, ◌==◌,
  eq_iff, ◌≡◌, refl, ◌↔◌, arith,
}
use native.Mathlib.Decide.{dec_lt}
use scan_tls.Report.{Endpoint, Suite}
use scan_tls.Score.{round_div, pct, grade_score, compliant_suites, combine_score, endpoint_score}

-- Rounding is to the nearest: twice the error is at most the divisor.
pub round_div_near :
    (a b : ℕ)
    → 0 < b
    → (2 * (b * round_div a b) ≤ 2 * a + b) × (2 * a < 2 * (b * round_div a b) + b)
unfolding round_div
round_div_near a b h = (grind arith, grind arith)

pub round_div-le : (a b n : ℕ) → 0 < b → a ≤ n * b → round_div a b ≤ n
round_div-le a b n h le = grind (arith, round_div_near a b h)

-- A percentage is at most 100, and is the nearest whole number: 200 * part differs from
-- 2 * total * pct by at most the total. Of no total it is 0.
pub pct_bounds :
    (part total : ℕ)
    → part ≤ total
    → (pct part total ≤ 100)
      × (2 * (total * pct part total) ≤ 200 * part + total)
      × (200 * part ≤ 2 * (total * pct part total) + total)
      × (pct part 0 ≡ 0)
unfolding pct
pct_bounds part zero h = (omega arith, omega arith, omega arith, refl)
pct_bounds part (suc n) h =
    ground (arith, round_div-le (part * 100) (suc n) 100, round_div_near (part * 100) (suc n))

grade_score-le : (grade : Text) → grade_score grade ≤ 100
unfolding grade_score
grade_score-le grade = ground arith

grade_score-eq_100 : (grade : Text) → 99 ≤ grade_score grade → grade ≡ str "A+"
unfolding grade_score
grade_score-eq_100 grade h = ground (arith, eq_iff (str "A+") grade)

grade_score-A+ : (grade : Text) → grade ≡ str "A+" → grade_score grade ≡ 100
unfolding grade_score
grade_score-A+ grade e = rw e refl

communication-le :
    (suite : Suite) (suites : List Suite)
    → round_div (length (compliant_suites (suite ∷ suites)) * 100) (length (suite ∷ suites)) ≤ 100
unfolding compliant_suites
communication-le suite suites = round_div-le _ _ 100 (omega arith) (
    omega (
      arith,
      length-filter-le {0} (λ (s : Suite). s.compliance_status == str "compliant") (suite ∷ suites),
    ))

combine_score-le :
    (grade : ℕ) (suites : List Suite) → grade ≤ 100 → combine_score grade suites ≤ 100
unfolding combine_score
combine_score-le grade [] h = h
combine_score-le grade (suite ∷ suites) h =
    round_div-le _ 2 100 (omega arith) (omega (arith, communication-le suite suites))

-- A score is at most 100, whatever the grade and the suites.
pub endpoint_score-le : (endpoint : Endpoint) → endpoint_score endpoint ≤ 100
unfolding endpoint_score
endpoint_score-le endpoint =
    combine_score-le _ endpoint.cipher_suites (grade_score-le endpoint.overall_grade)

-- r is the rounded percentage of c in n
percent_ge_99 :
    (c n r : ℕ)
    → 0 < n
    → 2 * (n * r) ≤ 2 * (c * 100) + n
    → 2 * (c * 100) < 2 * (n * r) + n
    → (99 ≤ r) ↔ (197 * n ≤ 200 * c)
percent_ge_99 c n r pos below above = (grind arith, grind arith)

half_eq_100 : (r : ℕ) → r ≤ 100 → (round_div (100 + r) 2 ≡ 100) ↔ (99 ≤ r)
unfolding round_div
half_eq_100 r h = (omega arith, omega arith)

combine_score-eq_100 :
    (suites : List Suite)
    → (combine_score 100 suites ≡ 100)
      ↔ (197 * length suites ≤ 200 * length (compliant_suites suites))
unfolding combine_score
combine_score-eq_100 [] = (omega arith, λ h. refl)
combine_score-eq_100 (suite ∷ suites) =
    let c = length (compliant_suites (suite ∷ suites)) in
    let n = suc (length suites) in
    let near = round_div_near (c * 100) n (omega arith) in
    let half = half_eq_100 (round_div (c * 100) n) (communication-le suite suites) in
    let ge = percent_ge_99 c n (round_div (c * 100) n) (omega arith) near.0 near.1 in
    (λ e. ge.0 (half.0 e), λ h. half.1 (ge.1 h))

combine_score-lt_100 :
    (grade : ℕ) (suites : List Suite) → grade < 99 → combine_score grade suites < 100
unfolding combine_score round_div
combine_score-lt_100 grade [] h = omega arith
combine_score-lt_100 grade (suite ∷ suites) h = omega (arith, communication-le suite suites)

-- An endpoint scores 100 exactly when its grade is A+ and at least 98.5 % of its cipher suites are
-- compliant; an endpoint without suites needs the grade alone.
pub endpoint_score-eq_100 :
    (endpoint : Endpoint)
    → (endpoint_score endpoint ≡ 100) ↔ (
        (endpoint.overall_grade ≡ str "A+")
        × (197 * length endpoint.cipher_suites
            ≤ 200 * length (compliant_suites endpoint.cipher_suites)))
unfolding endpoint_score
endpoint_score-eq_100 endpoint = (
  λ e.
      let top = best_grade (combine_score-lt_100 _ endpoint.cipher_suites) e in
      (
        top,
        (combine_score-eq_100 endpoint.cipher_suites).0
            (rw (grade_score-A+ endpoint.overall_grade top) at e),
      ),
  λ h.
      rw (grade_score-A+ endpoint.overall_grade h.0)
        ((combine_score-eq_100 endpoint.cipher_suites).1 h.1),
)
  where
    best_grade :
        (grade_score endpoint.overall_grade < 99
          → combine_score (grade_score endpoint.overall_grade) endpoint.cipher_suites < 100)
        → combine_score (grade_score endpoint.overall_grade) endpoint.cipher_suites ≡ 100
        → endpoint.overall_grade ≡ str "A+"
    best_grade low e = elim (dec_lt (grade_score endpoint.overall_grade) 99) [
      | yes h ↦ absurd (omega (arith, low h))
      | no h ↦ grade_score-eq_100 endpoint.overall_grade (omega arith)
    ]
