-- ===== src/Hosts/View.antt =====
-- What the endpoint chapter shows for a search text, a compliance filter and a sort order.
use mathlib.Core.Path.{subst}
use mathlib.Core.List.Perm
use scan_tls.Common.{
  Text, List, [], ◌∷◌, map, Option, some, ◌≡◌, ◌≢◌, refl, All, All-of_forall, length, filter, take,
  Perm, IsSorted, IsPreorder, sort_by, sort_by-perm, sort_by-IsSorted, All-sort_by, Group, IsGroup,
  then_by-IsPreorder, on_nat-IsPreorder, on-IsPreorder, reverse-IsPreorder,
}
use scan_tls.Report.{Endpoint}
use scan_tls.Locale.{Locale, Anything}
use scan_tls.Hosts.{
  host_key, host_summary, HostEntry, HostSort, by_severity, by_score, by_hostname, by_grade,
  by_findings, by_ports, by_expiration, host_entry, host_entries, compare_hosts, endpoint_shown,
  group_endpoints_by_host, render_endpoints, EndpointView, host_limit, caption_of, grade_rank,
  severity_rank, no_hosts,
}
use scan_tls.Hosts.Grouping.{group_endpoints_by_host-IsHostGrouping}
use scan_tls.Hosts.Summary.{host_summary-IsSummaryOf, IsSummaryOf}

-- An entry that was made of its own group: the summary of its members, and the first of them.
pub record IsEntry (h : HostEntry) : Type 0 where
  pub rest : List Endpoint
  pub opens : h.group.members ≡ h.first ∷ rest
  pub summary : host_summary h.group.members ≡ some h.summary
  pub sums_up : IsSummaryOf h.group.members h.summary

host_entry_total :
    (g : Group Endpoint)
    → g.members ≢ []
    → (h : HostEntry) × (host_entry g ≡ some h) × (h.group ≡ g) × IsEntry h
unfolding host_entry
host_entry_total g ne = on_members g.key g.members ne
  where
    on_members :
        (key : Text) (members : List Endpoint)
        → members ≢ []
        → (h : HostEntry) × (host_entry (record { key = key; members = members }) ≡ some h)
          × (h.group ≡ record { key = key; members = members })
          × IsEntry h
    on_members key [] ne = absurd (ne refl)
    on_members key (first ∷ rest) ne =
        let (s, e, v) = host_summary-IsSummaryOf (first ∷ rest) ne in
        (
          record {
            group = record { key = key; members = first ∷ rest };
            first = first;
            summary = s;
          },
          rw (e, host_entry) refl,
          refl,
          record { rest = rest; opens = refl; summary = e; sums_up = v },
        )

-- No group of `groupEndpointsByHost` makes `hostSummary` fail.
host_entries_total :
    (gs : List (Group Endpoint))
    → All (IsGroup host_key) gs
    → (hs : List HostEntry) × (host_entries gs ≡ some hs)
      × (map (λ h. h.group) hs ≡ gs)
      × All IsEntry hs
unfolding host_entries
host_entries_total [] h = ([], refl, refl, tt)
host_entries_total (g ∷ gs) (v, h) =
    let (entry, made, same, valid) = host_entry_total g v.nonempty in
    let (entries, made_all, same_all, valid_all) = host_entries_total gs h in
    (
      entry ∷ entries,
      rw (made, host_entries) (rw (made_all, host_entries) refl),
      cc (same, same_all),
      (valid, valid_all),
    )

module _ (locale : Locale) (serialize : Endpoint → Text) where
  compare_hosts-IsPreorder :
      (sort : HostSort) → IsPreorder (compare_hosts locale serialize sort) Anything
  unfolding compare_hosts
  compare_hosts-IsPreorder by_severity =
      then_by-IsPreorder Anything _ _
        (on_nat-IsPreorder Anything (λ h. severity_rank h.summary.highest_severity))
        (reverse-IsPreorder Anything _ (on_nat-IsPreorder Anything (λ h. h.summary.findings)))
  compare_hosts-IsPreorder by_score =
      reverse-IsPreorder Anything _ (on_nat-IsPreorder Anything (λ h. h.summary.score))
  compare_hosts-IsPreorder by_hostname =
      on-IsPreorder Anything (λ h. h.group.key) locale.compare locale.compare_order
  compare_hosts-IsPreorder by_grade =
      on_nat-IsPreorder Anything (λ h. grade_rank h.summary.worst_grade)
  compare_hosts-IsPreorder by_findings =
      reverse-IsPreorder Anything _ (on_nat-IsPreorder Anything (λ h. h.summary.findings))
  compare_hosts-IsPreorder by_ports =
      reverse-IsPreorder Anything _ (on_nat-IsPreorder Anything (λ h. length h.group.members))
  compare_hosts-IsPreorder by_expiration =
      on-IsPreorder Anything (λ h. h.first.certificate.valid_until) locale.compare
        locale.compare_order

  -- The hosts that a view is cut from: the groups of the endpoints that pass the filter, each with
  -- its own summary and its first endpoint, in the chosen order; and the view shows the first 500 of them.
  pub record Shows (endpoints : List Endpoint) (query : Text) (compliance : Option Text)
      (sort : HostSort) (view : EndpointView) : Type 0 where
    pub all_hosts : List HostEntry
    pub groups : Perm (map (λ h. h.group) all_hosts) (
        group_endpoints_by_host locale
          (filter (endpoint_shown locale serialize query compliance) endpoints))
    pub entries : All IsEntry all_hosts
    pub ordered : IsSorted (compare_hosts locale serialize sort) all_hosts
    pub cut : view.hosts ≡ take host_limit all_hosts
    pub note : view.shows_empty ≡ no_hosts all_hosts
    pub caption : view.caption ≡ caption_of all_hosts view.hosts

  -- The endpoint chapter renders whatever the filters are, without a TypeError: it shows the first
  -- 500 of the hosts of the endpoints that pass the filter, in the chosen order.
  pub render_endpoints-Shows :
      (endpoints : List Endpoint) (query : Text) (compliance : Option Text) (sort : HostSort)
      → (view : EndpointView) × (render_endpoints locale serialize endpoints query compliance sort
          ≡ some view)
        × Shows endpoints query compliance sort view
  unfolding render_endpoints
  render_endpoints-Shows endpoints query compliance sort =
      let shown = filter (endpoint_shown locale serialize query compliance) endpoints in
      let grouping = group_endpoints_by_host-IsHostGrouping locale shown in
      let (entries, made, same, valid) =
        host_entries_total (group_endpoints_by_host locale shown) grouping.each in
      let sorted = sort_by (compare_hosts locale serialize sort) entries in
      (
        record {
          hosts = take host_limit sorted;
          caption = caption_of sorted (take host_limit sorted);
          shows_empty = no_hosts sorted;
        },
        rw (made, render_endpoints) refl,
        record {
          all_hosts = sorted;
          groups =
              subst (λ gs. Perm (map (λ (h : HostEntry). h.group) sorted) gs) same
                (Perm.map (λ h. h.group) (sort_by-perm _ entries));
          entries = All-sort_by _ IsEntry entries valid;
          ordered =
              sort_by-IsSorted _ Anything (compare_hosts-IsPreorder sort) entries
                (All-of_forall (λ h. tt) entries);
          cut = refl;
          note = refl;
          caption = refl;
        },
      )
