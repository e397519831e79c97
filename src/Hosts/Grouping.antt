-- ===== src/Hosts/Grouping.antt =====
-- `groupEndpointsByHost` partitions the endpoints by host and orders each host's endpoints.
use mathlib.Core.List.Perm
use scan_tls.Common.{
  List, [], ◌∷◌, map, ◌≡◌, refl, ap, ap, ◌∙◌, All, Perm, IsSorted, IsPreorder, sort_by-perm,
  sort_by-IsSorted, All-sort_by, sort_by-nonempty, then_by-IsPreorder, on_nat-IsPreorder,
  on-IsPreorder, Group, group_by, group_by-IsGroup, IsGroup, keys, keys-group_by, all_members,
  all_members-group_by, distinct, All-of_forall,
}
use scan_tls.Report.{Endpoint}
use scan_tls.Locale.{Locale, Anything}
use scan_tls.Hosts.{host_key, compare_endpoints, sort_group, group_endpoints_by_host}

module _ (locale : Locale) where
  compare_endpoints-IsPreorder : IsPreorder (compare_endpoints locale) Anything
  unfolding compare_endpoints
  compare_endpoints-IsPreorder =
      then_by-IsPreorder Anything _ _ (on_nat-IsPreorder Anything (λ e. e.port))
        (on-IsPreorder Anything (λ e. e.endpoint_id) locale.compare locale.compare_order)

  -- The groups of a list of endpoints: nothing is lost or doubled, there is one group for each host
  -- in the order of first occurrence, a group is not empty, holds the endpoints of its host, and is
  -- ordered by port, then by identifier.
  pub record IsHostGrouping (endpoints : List Endpoint) (groups : List (Group Endpoint))
      : Type 0 where
    pub partition : Perm (all_members groups) endpoints
    pub hosts : keys groups ≡ distinct (map host_key endpoints)
    pub each : All (IsGroup host_key) groups
    pub ordered : All (λ g. IsSorted (compare_endpoints locale) g.members) groups

  all_members-sort_group :
      (gs : List (Group Endpoint))
      → Perm (all_members (map (sort_group locale) gs)) (all_members gs)
  unfolding sort_group
  all_members-sort_group [] = Perm.rfl
  all_members-sort_group (g ∷ gs) =
      Perm.append (sort_by-perm (compare_endpoints locale) g.members) (all_members-sort_group gs)

  keys-sort_group : (gs : List (Group Endpoint)) → keys (map (sort_group locale) gs) ≡ keys gs
  unfolding sort_group
  keys-sort_group [] = refl
  keys-sort_group (g ∷ gs) = ap (◌∷◌ g.key) (keys-sort_group gs)

  sort_group-IsGroup :
      (gs : List (Group Endpoint))
      → All (IsGroup host_key) gs
      → All (IsGroup host_key) (map (sort_group locale) gs)
  unfolding sort_group
  sort_group-IsGroup [] h = tt
  sort_group-IsGroup (g ∷ gs) (v, h) = (
    record {
      nonempty = sort_by-nonempty (compare_endpoints locale) g.members v.nonempty;
      same_key = All-sort_by (compare_endpoints locale) _ g.members v.same_key;
    },
    sort_group-IsGroup gs h,
  )

  sort_group-IsSorted :
      (gs : List (Group Endpoint))
      → All (λ g. IsSorted (compare_endpoints locale) g.members) (map (sort_group locale) gs)
  unfolding sort_group
  sort_group-IsSorted [] = tt
  sort_group-IsSorted (g ∷ gs) = (
    sort_by-IsSorted (compare_endpoints locale) Anything compare_endpoints-IsPreorder g.members
        (All-of_forall (λ e. tt) g.members),
    sort_group-IsSorted gs,
  )

  -- `groupEndpointsByHost` partitions the endpoints by host: none is lost or doubled, each host has
  -- one group, in the order of first occurrence, and each group is not empty, holds endpoints of its
  -- host only, and is ordered by port, then by identifier.
  pub group_endpoints_by_host-IsHostGrouping :
      (endpoints : List Endpoint)
      → IsHostGrouping endpoints (group_endpoints_by_host locale endpoints)
  unfolding group_endpoints_by_host
  group_endpoints_by_host-IsHostGrouping endpoints =
      let groups = group_by host_key endpoints in
      record {
        partition =
            Perm.trans (all_members-sort_group groups) (all_members-group_by host_key endpoints);
        hosts = keys-sort_group groups ∙ keys-group_by host_key endpoints;
        each = sort_group-IsGroup groups (group_by-IsGroup host_key endpoints);
        ordered = sort_group-IsSorted groups;
      }
