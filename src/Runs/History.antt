-- ===== src/Runs/History.antt =====
-- What the groups of runs are: nothing is lost, and the newest comes first at both levels.
use scan_tls.Common.{
  Text, false, List, [], ◌∷◌, map, some, ◌≡◌, ◌≢◌, refl, All, All-of_forall, All-filter_of,
  mem_text, if◌then◌else◌, Perm, Group, group_by, IsGroup, group_by-IsGroup, all_members,
  all_members-group_by, keys, keys-group_by, distinct, sort_by, sort_by-perm, sort_by-IsSorted,
  IsSorted, IsPreorder, gtb, on-IsPreorder, reverse-IsPreorder,
}
use mathlib.Core.List.Perm
use scan_tls.Common.GroupOrder.{heads, heads-group_from, members-group_from}
use scan_tls.Locale.{Locale, Anything}
use scan_tls.Runs.{
  Run, run_key, newest_first, recent_groups, grouped_runs, group_shown, GroupRow, group_row, delta,
}

module _ (locale : Locale) where
  -- The groups of a list of runs.
  pub record IsHistory (runs : List Run) (groups : List (Group Run)) : Type 0 where
    -- no run is lost or doubled
    pub partition : Perm (all_members groups) runs
    -- a group has runs, and runs of its key only; there is one for each key
    pub each : All (IsGroup run_key) groups
    pub once : keys groups ≡ distinct (map run_key (sort_by (newest_first locale) runs))
    -- the newest run comes first in its group, and its group first
    pub newest : All (λ g. IsSorted (newest_first locale) g.members) groups
    pub order : IsSorted (newest_first locale) (heads groups)

  newest_first-IsPreorder : IsPreorder (newest_first locale) Anything
  unfolding newest_first
  newest_first-IsPreorder =
      reverse-IsPreorder Anything (λ a b. locale.compare a.queued_at b.queued_at)
        (on-IsPreorder Anything (λ r. r.queued_at) locale.compare locale.compare_order)

  sorted : (runs : List Run) → IsSorted (newest_first locale) (sort_by (newest_first locale) runs)
  sorted runs =
      sort_by-IsSorted (newest_first locale) Anything newest_first-IsPreorder runs
        (All-of_forall (λ r. tt) runs)

  recent_groups-IsHistory : (runs : List Run) → IsHistory runs (recent_groups locale runs)
  unfolding recent_groups group_by
  recent_groups-IsHistory runs =
      let ordered = sort_by (newest_first locale) runs in
      record {
        partition =
            Perm.trans (all_members-group_by run_key ordered)
              (sort_by-perm (newest_first locale) runs);
        each = group_by-IsGroup run_key ordered;
        once = keys-group_by run_key ordered;
        newest = members-group_from (newest_first locale) run_key [] ordered (sorted runs) tt;
        order = heads-group_from (newest_first locale) run_key [] ordered tt (sorted runs);
      }

  -- What a row of GroupedRuns says of its group.
  pub record IsRow (open_keys : List Text) (g : Group Run) (row : GroupRow) : Type 0 where
    pub older : List Run
    pub members : g.members ≡ row.last ∷ older
    pub newest : All (λ r. gtb (newest_first locale row.last r) ≡ false) older
    pub unfolded : row.history ≡ (if mem_text g.key open_keys then g.members else [])
    pub trend : row.trend ≡ delta g.members

  group_row-IsRow :
      (open_keys : List Text) (g : Group Run)
      → g.members ≢ []
      → IsSorted (newest_first locale) g.members
      → (row : GroupRow) × (group_row open_keys g ≡ some row) × IsRow open_keys g row
  group_row-IsRow open_keys g ne s = row_of g.key g.members ne s
    where
      row_of :
          (key : Text) (members : List Run)
          → members ≢ []
          → IsSorted (newest_first locale) members
          → (row : GroupRow) × (group_row open_keys (record { key = key; members = members })
              ≡ some row)
            × IsRow open_keys (record { key = key; members = members }) row
      row_of key [] ne s = absurd (ne refl)
      row_of key (r ∷ rs) ne (below, s) =
          let expanded = mem_text key open_keys in
          (
            record {
              name = r.name;
              last = r;
              trend = delta (r ∷ rs);
              expanded = expanded;
              history = if expanded then r ∷ rs else [];
            },
            unfold group_row in refl,
            record { older = rs; members = refl; newest = below; unfolded = refl; trend = refl },
          )

  grouped_runs-IsRow :
      (runs : List Run) (q : Text) (open_keys : List Text)
      → All
          (λ g. (row : GroupRow) × (group_row open_keys g ≡ some row) × IsRow open_keys g row)
          (grouped_runs locale runs q)
  unfolding grouped_runs
  grouped_runs-IsRow runs q open_keys =
      let h = recent_groups-IsHistory runs in
      All-filter_of _ (group_shown locale q) (recent_groups locale runs)
        (rows (recent_groups locale runs) h.each h.newest)
    where
      rows :
          (gs : List (Group Run))
          → All (IsGroup run_key) gs
          → All (λ g. IsSorted (newest_first locale) g.members) gs
          → All
              (λ g. (row : GroupRow) × (group_row open_keys g ≡ some row) × IsRow open_keys g row)
              gs
      rows [] h k = tt
      rows (g ∷ gs) (p, h) (s, k) = (group_row-IsRow open_keys g p.nonempty s, rows gs h k)

  -- The runs are grouped by scan: none is lost or doubled, each scan has one group, and the newest run
  -- comes first in its group, as does the group of the newest run; every group that GroupedRuns shows
  -- has a row of its newest run.
  pub grouped_runs_lem :
      (runs : List Run) (q : Text) (open_keys : List Text)
      → IsHistory runs (recent_groups locale runs)
        × All
            (λ g. (row : GroupRow) × (group_row open_keys g ≡ some row) × IsRow open_keys g row)
            (grouped_runs locale runs q)
  grouped_runs_lem runs q open_keys =
      (recent_groups-IsHistory runs, grouped_runs-IsRow runs q open_keys)
