-- ===== src/Findings/View.antt =====
-- What the findings chapter shows.
use mathlib.Core.Path.{subst}
use scan_tls.Hosts.{includes}
use scan_tls.Common.{
  All-of_forall, filter-eq_self, true, sort_by, ◌==◌, [], ◌∷◌, Ordering, IsSorted-imp, then_by,
  All-sort_by, Text, ℕ, false, List, some, ◌≡◌, refl, All, All-filter_of, filter, length, lookup,
  Perm, IsSorted, IsPreorder, sort_by-perm, sort_by-IsSorted, then_by-IsPreorder, on_nat-IsPreorder,
  on-IsPreorder, reverse-IsPreorder, compare, arith, gtb,
}
use scan_tls.Report.{Finding}
use scan_tls.Locale.{Locale}
use scan_tls.Hosts.{severity_rank, severity_order}
use scan_tls.Findings.{
  compare_severity, compare_findings, finding_shown, FindingFilters, no_filters, render_findings,
}

-- The severity is a key of `severityOrder`.
pub record IsKnown (f : Finding) : Type 0 where
  pub rank : ℕ
  pub found : lookup f.severity severity_order ≡ some rank

compare_severity-ranks :
    (s t : Text) (m n : ℕ)
    → lookup s severity_order ≡ some m
    → lookup t severity_order ≡ some n
    → compare_severity s t ≡ compare m n
unfolding compare_severity
compare_severity-ranks s t m n e f = ground arith

compare_severity-IsPreorder :
    IsPreorder (λ (a : Finding) b. compare_severity a.severity b.severity) IsKnown
compare_severity-IsPreorder = record {
  flip = λ a b v w.
      rw
        (
          compare_severity-ranks _ _ _ _ v.found w.found,
          compare_severity-ranks _ _ _ _ w.found v.found,
        )
        (ground arith);
  trans = λ a b c u v w p q. rw (compare_severity-ranks _ _ _ _ u.found w.found) (
      compare_trans u.rank v.rank w.rank (rw (compare_severity-ranks _ _ _ _ u.found v.found) at p)
        (rw (compare_severity-ranks _ _ _ _ v.found w.found) at q));
}
  where
    compare_trans :
        (l m n : ℕ)
        → gtb (compare l m) ≡ false
        → gtb (compare m n) ≡ false
        → gtb (compare l n) ≡ false
    compare_trans l m n p q = ground arith

module _ (locale : Locale) (serialize : Finding → Text) where
  compare_findings-IsPreorder : IsPreorder (compare_findings locale serialize) IsKnown
  unfolding compare_findings
  compare_findings-IsPreorder = then_by-IsPreorder IsKnown _ _ compare_severity-IsPreorder (
      then_by-IsPreorder IsKnown _ _
        (reverse-IsPreorder IsKnown _
          (on_nat-IsPreorder IsKnown (λ f. length f.affected_endpoint_ids)))
        (on-IsPreorder IsKnown (λ f. f.title) locale.compare locale.compare_order))

  cards-IsSorted :
      (findings : List Finding) (filters : FindingFilters)
      → All IsKnown findings
      → Perm
          (render_findings locale serialize findings filters).cards
          (filter (finding_shown locale serialize filters) findings)
        × IsSorted
            (compare_findings locale serialize)
            (render_findings locale serialize findings filters).cards
  unfolding render_findings
  cards-IsSorted findings filters h = (
    sort_by-perm _ _,
    sort_by-IsSorted _ IsKnown compare_findings-IsPreorder _ (All-filter_of IsKnown _ findings h),
  )

  rank_known : (f : Finding) (v : IsKnown f) → severity_rank f.severity ≡ v.rank
  unfolding severity_rank
  rank_known f v = rw v.found refl

  severity_leads :
      (a b : Finding)
      → IsKnown a
      → IsKnown b
      → gtb (compare_findings locale serialize a b) ≡ false
      → gtb (compare (severity_rank a.severity) (severity_rank b.severity)) ≡ false
  unfolding compare_findings
  severity_leads a b v w h =
      rw (rank_known a v, rank_known b w)
        (leads v.rank w.rank _ (rw (compare_severity-ranks _ _ _ _ v.found w.found) at h))
    where
      leads :
          (m n : ℕ) (c : Ordering)
          → gtb (then_by (compare m n) c) ≡ false
          → gtb (compare m n) ≡ false
      leads m n c h = ground arith

  -- With severities that the page knows, the cards are the findings that pass the filters, in order:
  -- by severity, the worst first, then by the number of affected endpoints, the most first, then by
  -- title; and no card stands before one of a worse severity.
  pub render_findings-IsSorted :
      (findings : List Finding) (filters : FindingFilters)
      → All IsKnown findings
      → Perm
          (render_findings locale serialize findings filters).cards
          (filter (finding_shown locale serialize filters) findings)
        × IsSorted
            (compare_findings locale serialize)
            (render_findings locale serialize findings filters).cards
        × IsSorted
            (λ a b. compare (severity_rank a.severity) (severity_rank b.severity))
            (render_findings locale serialize findings filters).cards
  render_findings-IsSorted findings filters h =
      let (same, sorted) = cards-IsSorted findings filters h in
      (
        same,
        sorted,
        IsSorted-imp IsKnown (compare_findings locale serialize) _ severity_leads _
            (unfold render_findings in
              (All-sort_by _ IsKnown _ (All-filter_of IsKnown _ findings h)))
            sorted,
      )

  includes-empty : (s : Text) → includes s [] ≡ true
  unfolding includes
  includes-empty [] = refl
  includes-empty (c ∷ s) = refl

  -- After a reset of the filters, and when the page opens, every finding is shown.
  render_findings-no_filters :
      (findings : List Finding)
      → Perm (render_findings locale serialize findings no_filters).cards findings
  unfolding render_findings
  render_findings-no_filters findings =
      subst (Perm (sort_by (compare_findings locale serialize) shown))
        (filter-eq_self _ findings (All-of_forall all_shown findings))
        (sort_by-perm (compare_findings locale serialize) shown)
    where
      shown : List Finding
      shown = filter (finding_shown locale serialize no_filters) findings

      all_shown : (f : Finding) → finding_shown locale serialize no_filters f ≡ true
      all_shown f =
          unfold finding_shown ◌==◌ in
          rw locale.lower_empty (includes-empty (locale.lower (serialize f)))
