-- ===== src/Findings/Exposure.antt =====
-- The ranking of the most exposed endpoints.
use scan_tls.Common.{
  ℕ, ◌≤◌, Bool, List, [], ◌∷◌, map, ◌≡◌, refl, All, All-filter_of, All-imp, All-of_forall, length,
  length-take, take, ltb, ◌&&◌, not, any, filter, ◌||◌, Text, str, ◌++◌, Perm, compare, Bool-cases,
  inl, inr, ap, sym, ◌∙◌, zero, suc, ◌+◌, ◌*◌, sort_by-perm, IsSorted, IsPreorder, sort_by-IsSorted,
  All-sort_by, reverse-IsPreorder, on_nat-IsPreorder, arith, ◌&&◌,
}
use mathlib.Core.Path.{subst, ap₂}
use mathlib.Core.List.Perm
use scan_tls.Hosts.{count_severity}
use Prim.Native.Nat.{min}
use scan_tls.Report.{Endpoint, Finding}
use scan_tls.Locale.{Anything}
use scan_tls.Findings.Counts.{
  has_severity, has_other, number_of, count_severity-number, severities_known-not_other, any-length,
}
use scan_tls.Findings.{
  Exposed, exposed_of, is_exposed, exposed_endpoints, compare_exposed, ranked, max_total,
  counts_total,
}

compare_exposed-IsPreorder : IsPreorder compare_exposed Anything
unfolding compare_exposed
compare_exposed-IsPreorder =
    reverse-IsPreorder Anything _ (on_nat-IsPreorder Anything (λ item. item.score))

max_total-le :
    (items : List Exposed) → All (λ item. counts_total item.counts ≤ max_total items) items
unfolding max_total
max_total-le [] = tt
max_total-le (item ∷ items) = (omega arith, All-imp (λ i h. omega arith) items (max_total-le items))

-- An endpoint with a finding that is not informational, and none of an unknown severity.
abbrev pub at_risk : List Finding → Endpoint → Bool
at_risk findings endpoint =
    not (any (has_other findings) endpoint.finding_ids)
    && (any (has_severity findings (str "critical")) endpoint.finding_ids
        || any (has_severity findings (str "high")) endpoint.finding_ids
        || any (has_severity findings (str "medium")) endpoint.finding_ids
        || any (has_severity findings (str "low")) endpoint.finding_ids)

-- The counts of an item are those of its endpoint, and its score weighs them.
pub record IsCounted (findings : List Finding) (item : Exposed) : Type 0 where
  pub critical : item.counts.critical ≡ number_of findings (str "critical") item.endpoint
  pub high : item.counts.high ≡ number_of findings (str "high") item.endpoint
  pub medium : item.counts.medium ≡ number_of findings (str "medium") item.endpoint
  pub low : item.counts.low ≡ number_of findings (str "low") item.endpoint
  pub informational :
      item.counts.informational ≡ number_of findings (str "informational") item.endpoint
  pub scored :
      item.score
      ≡ 100 * item.counts.critical
        + 10 * item.counts.high
        + 3 * item.counts.medium
        + item.counts.low

-- The first six of all the endpoints at risk, in descending order of their scores.
pub record IsRanking (findings : List Finding) (endpoints : List Endpoint) (shown : List Exposed)
    : Type 0 where
  pub rest : List Exposed
  pub all_at_risk :
      Perm (map (λ item. item.endpoint) (shown ++ rest)) (filter (at_risk findings) endpoints)
  pub counted : All (IsCounted findings) (shown ++ rest)
  pub descending : IsSorted (λ a b. compare b.score a.score) (shown ++ rest)
  pub cut : length shown ≡ min 6 (length (shown ++ rest))

score_positive :
    (c h m l i : ℕ)
    → ltb 0 (c * 100 + h * 10 + m * 3 + l * 1 + i * 0) ≡ (ltb 0 c || ltb 0 h || ltb 0 m || ltb 0 l)
score_positive c h m l i = ground arith

module _ (findings : List Finding) where
  exposed_of-IsCounted : (e : Endpoint) → IsCounted findings (exposed_of findings e)
  unfolding exposed_of
  exposed_of-IsCounted e = record {
    critical = count_severity-number findings _ e.finding_ids;
    high = count_severity-number findings _ e.finding_ids;
    medium = count_severity-number findings _ e.finding_ids;
    low = count_severity-number findings _ e.finding_ids;
    informational = count_severity-number findings _ e.finding_ids;
    scored = omega arith;
  }

  is_exposed-at_risk :
      (e : Endpoint) → is_exposed findings (exposed_of findings e) ≡ at_risk findings e
  unfolding is_exposed exposed_of
  is_exposed-at_risk e =
      let count : Text → ℕ = λ severity. count_severity findings severity e.finding_ids in
      ap₂ ◌&&◌ (severities_known-not_other findings e.finding_ids) (
        score_positive (count (str "critical")) (count (str "high")) (count (str "medium"))
          (count (str "low")) (count (str "informational"))
        ∙ ap₂ ◌||◌
            (ap₂ ◌||◌ (ap₂ ◌||◌ (counted_any (str "critical")) (counted_any (str "high")))
              (counted_any (str "medium")))
            (counted_any (str "low")))
    where
      counted_any :
          (severity : Text)
          → ltb 0 (count_severity findings severity e.finding_ids)
            ≡ any (has_severity findings severity) e.finding_ids
      counted_any severity =
          ap (ltb 0) (count_severity-number findings severity e.finding_ids)
          ∙ any-length (has_severity findings severity) e.finding_ids

  endpoints_at_risk :
      (es : List Endpoint)
      → map (λ item. item.endpoint) (filter (is_exposed findings) (map (exposed_of findings) es))
        ≡ filter (at_risk findings) es
  unfolding exposed_of
  endpoints_at_risk [] = refl
  endpoints_at_risk (e ∷ es) = elim (Bool-cases (at_risk findings e)) [
    | inl r ↦ rw (is_exposed-at_risk e, r) (ap (◌∷◌ e) (endpoints_at_risk es))
    | inr r ↦ rw (is_exposed-at_risk e, r) (endpoints_at_risk es)
  ]

  exposed-IsCounted : (es : List Endpoint) → All (IsCounted findings) (map (exposed_of findings) es)
  exposed-IsCounted [] = tt
  exposed-IsCounted (e ∷ es) = (exposed_of-IsCounted e, exposed-IsCounted es)

take_rest : (n : ℕ) (items : List Exposed) → (rest : List Exposed) × (take n items ++ rest ≡ items)
take_rest zero items = (items, refl)
take_rest (suc n) [] = ([], refl)
take_rest (suc n) (item ∷ items) = let (rest, e) = take_rest n items in (rest, ap (◌∷◌ item) e)

-- The ranking shows the six endpoints with the highest scores, or all where there are fewer, of those
-- that have a finding that is not informational and none of an unknown severity, in descending order
-- of the scores. The counts are the numbers of the endpoint's findings by severity, the score is the
-- sum of them with the weights 100, 10, 3 and 1, and no item has more findings than the maximum that
-- the widths of the bars are measured by.
pub ranked_lem :
    (findings : List Finding) (endpoints : List Endpoint)
    → IsRanking findings endpoints (ranked findings endpoints)
      × All
          (λ item. counts_total item.counts ≤ max_total (ranked findings endpoints))
          (ranked findings endpoints)
unfolding ranked exposed_endpoints compare_exposed
ranked_lem findings endpoints =
    let items = exposed_endpoints findings endpoints in
    let (rest, e) = take_rest 6 items in
    let whole = sym e in
    (
      record {
        rest = rest;
        all_at_risk =
            subst
              (λ xs. Perm (map (λ item. item.endpoint) xs) (filter (at_risk findings) endpoints))
              whole
              (subst (Perm (map (λ item. item.endpoint) items))
                (endpoints_at_risk findings endpoints)
                (Perm.map (λ item. item.endpoint) (sort_by-perm compare_exposed _)));
        counted = subst (All (IsCounted findings)) whole (
            All-sort_by compare_exposed (IsCounted findings) _
              (All-filter_of _ (is_exposed findings) _ (exposed-IsCounted findings endpoints)));
        descending = subst (IsSorted (λ a b. compare b.score a.score)) whole (
            sort_by-IsSorted compare_exposed Anything compare_exposed-IsPreorder _
              (All-of_forall (λ x. tt) _));
        cut = length-take 6 items ∙ ap (λ xs. min 6 (length xs)) whole;
      },
      max_total-le (take 6 items),
    )
