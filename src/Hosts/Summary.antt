-- ===== src/Hosts/Summary.antt =====
-- What the summary of a host says of its endpoints.
use scan_tls.Common.{
  Text, str, ℕ, ◌*◌, ◌≤◌, List, [], ◌∷◌, map, some, ◌≡◌, ◌≢◌, ◌↔◌, refl, All, length, filter, foldl,
  mem_text, mem_text_self, true, arith, eq_iff,
}
use scan_tls.Report.{Endpoint}
use scan_tls.Score.{endpoint_score}
use scan_tls.Score.Bounds.{endpoint_score-le, round_div-le}
use scan_tls.Hosts.{
  grade_rank, severity_rank, HostSummary, host_summary, keep_greater, keep_less, total_of,
  is_failed,
}

total_of-le :
    (f : Endpoint → ℕ) (n : ℕ)
    → ((e : Endpoint) → f e ≤ n)
    → (es : List Endpoint) → total_of f es ≤ n * length es
unfolding total_of
total_of-le f n h [] = omega arith
total_of-le f n h (e ∷ es) = grind (arith, total_of-le f n h es, h e)

module _ (rank : Text → ℕ) where
  -- The text that the `reduce` ends with ranks as high as the start and as every element.
  keep_greater-start : (t : Text) (ts : List Text) → rank t ≤ rank (foldl (keep_greater rank) t ts)
  keep_greater-start t [] = omega arith
  keep_greater-start t (u ∷ ts) = ground (arith, keep_greater-start (keep_greater rank t u) ts)

  keep_greater-All :
      (t : Text) (ts : List Text) → All (λ u. rank u ≤ rank (foldl (keep_greater rank) t ts)) ts
  keep_greater-All t [] = tt
  keep_greater-All t (u ∷ ts) = (
    ground (arith, keep_greater-start (keep_greater rank t u) ts),
    keep_greater-All (keep_greater rank t u) ts,
  )

  keep_less-start : (t : Text) (ts : List Text) → rank (foldl (keep_less rank) t ts) ≤ rank t
  keep_less-start t [] = omega arith
  keep_less-start t (u ∷ ts) = ground (arith, keep_less-start (keep_less rank t u) ts)

  keep_less-All :
      (t : Text) (ts : List Text) → All (λ u. rank (foldl (keep_less rank) t ts) ≤ rank u) ts
  keep_less-All t [] = tt
  keep_less-All t (u ∷ ts) = (
    ground (arith, keep_less-start (keep_less rank t u) ts),
    keep_less-All (keep_less rank t u) ts,
  )

  keep_greater-mem :
      (t : Text) (ts : List Text) → mem_text (foldl (keep_greater rank) t ts) (t ∷ ts) ≡ true
  unfolding mem_text
  keep_greater-mem t [] = mem_text_self t []
  keep_greater-mem t (u ∷ ts) = ground (arith, keep_greater-mem (keep_greater rank t u) ts)

  keep_less-mem :
      (t : Text) (ts : List Text) → mem_text (foldl (keep_less rank) t ts) (t ∷ ts) ≡ true
  unfolding mem_text
  keep_less-mem t [] = mem_text_self t []
  keep_less-mem t (u ∷ ts) = ground (arith, keep_less-mem (keep_less rank t u) ts)

-- A value is in a list that repeats its head.
mem_text-repeated :
    (s t : Text) (ts : List Text) → mem_text s (t ∷ t ∷ ts) ≡ true → mem_text s (t ∷ ts) ≡ true
unfolding mem_text
mem_text-repeated s t ts h = ground arith

All-of_map {κ} :
    (f : Endpoint → Text) (P : Text → Type κ) (es : List Endpoint)
    → All P (map f es)
    → All (λ e. P (f e)) es
All-of_map f P [] h = tt
All-of_map f P (e ∷ es) (p, h) = (p, All-of_map f P es h)

abbrev IsCompliant : Endpoint → Type 0
IsCompliant e = e.compliance_status ≡ str "compliant"

no_failed_iff : (es : List Endpoint) → (length (filter is_failed es) ≡ 0) ↔ All IsCompliant es
no_failed_iff [] = (λ e. tt, λ h. refl)
no_failed_iff (e ∷ es) = (
  λ h. ground (arith, (no_failed_iff es).0, eq_iff e.compliance_status (str "compliant")),
  λ h. ground (arith, (no_failed_iff es).1, eq_iff e.compliance_status (str "compliant")),
)

-- What a summary says of the endpoints that it sums up.
pub record IsSummaryOf (endpoints : List Endpoint) (s : HostSummary) : Type 0 where
  pub score_le : s.score ≤ 100
  pub grade_listed : mem_text s.worst_grade (map (λ e. e.overall_grade) endpoints) ≡ true
  pub worst : All (λ e. grade_rank e.overall_grade ≤ grade_rank s.worst_grade) endpoints
  pub severity_listed : mem_text s.highest_severity (map (λ e. e.highest_severity) endpoints) ≡ true
  pub highest :
      All (λ e. severity_rank s.highest_severity ≤ severity_rank e.highest_severity) endpoints
  pub no_failed : (s.failed ≡ 0) ↔ All IsCompliant endpoints

-- `hostSummary` succeeds on every group that has an endpoint. Its score is at most 100, its worst
-- grade and highest severity are those of an endpoint of the group and no endpoint has a worse one,
-- and it counts no failed endpoint exactly when every endpoint is compliant.
pub host_summary-IsSummaryOf :
    (endpoints : List Endpoint)
    → endpoints ≢ []
    → (s : HostSummary) × (host_summary endpoints ≡ some s) × IsSummaryOf endpoints s
unfolding host_summary
host_summary-IsSummaryOf [] h = absurd (h refl)
host_summary-IsSummaryOf (first ∷ rest) h = (
  _,
  refl,
  record {
    score_le =
        round_div-le _ _ 100 (omega arith)
          (total_of-le endpoint_score 100 endpoint_score-le (first ∷ rest));
    grade_listed = mem_text-repeated _ _ _ (keep_greater-mem grade_rank _ _);
    worst =
        All-of_map (λ e. e.overall_grade) _ (first ∷ rest)
          (keep_greater-All grade_rank first.overall_grade
            (map (λ e. e.overall_grade) (first ∷ rest)));
    severity_listed = mem_text-repeated _ _ _ (keep_less-mem severity_rank _ _);
    highest =
        All-of_map (λ e. e.highest_severity) _ (first ∷ rest)
          (keep_less-All severity_rank first.highest_severity
            (map (λ e. e.highest_severity) (first ∷ rest)));
    no_failed = no_failed_iff (first ∷ rest);
  },
)
