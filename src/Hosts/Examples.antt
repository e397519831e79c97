-- ===== src/Hosts/Examples.antt =====
-- The endpoint chapter of the sample report, and its theorems there.
use scan_tls.Common.{
  Text, str, List, [], ◌∷◌, map, Option, none, some, ◌≡◌, refl, group_by, sort_by, insert_by,
  lookup, ◌==◌,
}
use scan_tls.Report.Samples.{web_endpoint, mail_endpoint, endpoints, serialize_endpoint}
use scan_tls.Locale.{plain_locale}
use scan_tls.Hosts.{
  group_endpoints_by_host, sort_group, compare_endpoints, host_key, HostSummary, host_summary,
  by_severity, EndpointView, render_endpoints, host_entry, host_entries, grade_rank, severity_rank,
  compare_hosts, endpoint_shown, includes, starts_with,
}
use scan_tls.Hosts.Grouping.{IsHostGrouping, group_endpoints_by_host-IsHostGrouping}
use scan_tls.Hosts.Summary.{IsSummaryOf, host_summary-IsSummaryOf}
use scan_tls.Hosts.View.{Shows, render_endpoints-Shows}

group_endpoints_by_host-IsHostGrouping_example :
    IsHostGrouping plain_locale endpoints (group_endpoints_by_host plain_locale endpoints)
group_endpoints_by_host-IsHostGrouping_example =
    group_endpoints_by_host-IsHostGrouping plain_locale endpoints

host_summary-IsSummaryOf_example :
    (s : HostSummary) × (host_summary (mail_endpoint ∷ web_endpoint ∷ []) ≡ some s)
    × IsSummaryOf (mail_endpoint ∷ web_endpoint ∷ []) s
host_summary-IsSummaryOf_example =
    host_summary-IsSummaryOf (mail_endpoint ∷ web_endpoint ∷ []) (λ e. cc)

render_endpoints-Shows_example :
    (view : EndpointView) × (render_endpoints plain_locale serialize_endpoint endpoints
        (str "A.EX")
        none
        by_severity
      ≡ some view)
    × Shows plain_locale serialize_endpoint endpoints (str "A.EX") none by_severity view
render_endpoints-Shows_example =
    render_endpoints-Shows plain_locale serialize_endpoint endpoints (str "A.EX") none by_severity

-- the hosts of a view, from the first
abbrev shown_keys : Option EndpointView → List Text
shown_keys none = []
shown_keys (some view) = map (λ h. h.group.key) view.hosts

by_severity_runs :
    shown_keys (render_endpoints plain_locale serialize_endpoint endpoints [] none by_severity)
    ≡ str "10.0.0.2" ∷ str "a.example" ∷ []
unfolding render_endpoints group_endpoints_by_host host_entries host_entry host_summary
    severity_rank grade_rank compare_hosts endpoint_shown sort_group compare_endpoints host_key
    sort_by group_by includes starts_with lookup ◌==◌ insert_by
by_severity_runs = refl
