-- ===== src/Runs.antt =====
-- frontend/src/components/GroupedRuns.tsx and RecentRuns.tsx: the runs of each scan, with its trend;
-- ScanProgress.tsx: the steps of a running scan.
pub mod History
pub mod Progress
mod Examples
use Prim.Native.Nat.{compare}
use scan_tls.Common.{
  Text, str, ℕ, ◌-◌, Bool, true, false, not, List, [], ◌∷◌, ◌++◌, map, Option, none, some, or_else,
  Ordering, sort_by, Group, group_by, filter, length, ltb, mem_text, ◌==◌, ◌||◌, ◌&&◌,
  if◌then◌else◌, flat_map, append_distinct, eqb,
}
use scan_tls.Locale.{Locale}
use scan_tls.Hosts.{includes}

-- `Run`, as far as the lists read it; the number of non-compliant endpoints is missing before the end
-- of the run
pub record Run : Type 0 where
  pub id : Text
  pub name : Text
  pub definition_id : Option Text
  pub status : Text
  pub queued_at : Text
  pub non_compliant : Option ℕ
  pub formats : List Text

-- `r.definition_id ?? `name:${r.name}``
unfoldable pub run_key : Run → Text
run_key r = or_else r.definition_id (str "name:" ++ r.name)

-- `active`
unfoldable pub is_active : Run → Bool
unfolding ◌==◌
is_active r = r.status == str "queued" || r.status == str "running"

-- A difference of two counts.
pub data Trend : Type 0 where
  unknown same : Trend
  worse better : ℕ → Trend

abbrev pub trend_of : ℕ → ℕ → Trend
trend_of m n = elim (compare m n) [
  | Ordering.lt ↦ better (n - m)
  | Ordering.eq ↦ same
  | Ordering.gt ↦ worse (m - n)
]

abbrev pub known_count : Run → List ℕ
known_count r = elim r.non_compliant [ none ↦ [] | some n ↦ n ∷ [] ]

abbrev pub delta_of : List ℕ → Trend
delta_of [] = unknown
delta_of (n ∷ []) = unknown
delta_of (m ∷ n ∷ ns) = trend_of m n

-- `nc` of the runs that have it
unfoldable pub counts_of : List Run → List ℕ
counts_of runs = flat_map known_count runs

-- `delta`
unfoldable pub delta : List Run → Trend
unfolding counts_of
delta runs = delta_of (counts_of runs)

-- `runActions`: what a run offers
pub record RunActions : Type 0 where
  pub shows_report : Bool
  pub shows_delete : Bool
  pub shows_cancel : Bool

unfoldable pub run_actions : Bool → (Run → Bool) → Run → RunActions
unfolding is_active
run_actions can_delete can_cancel r = record {
  shows_report = mem_text (str "html") r.formats;
  shows_delete = can_delete && not (is_active r);
  shows_cancel = is_active r && can_cancel r;
}

abbrev pub without : Text → List Text → List Text
without key [] = []
without key (k ∷ ks) = if k == key then without key ks else k ∷ without key ks

-- `toggle` of a row
unfoldable pub toggle : Text → List Text → List Text
toggle key open_keys =
    if mem_text key open_keys then without key open_keys else append_distinct open_keys key

abbrev pub first_name : List Run → Text
first_name [] = []
first_name (r ∷ rs) = r.name

module _ (locale : Locale) where
  -- the comparator of `sort`
  unfoldable pub newest_first : Run → Run → Ordering
  newest_first a b = locale.compare b.queued_at a.queued_at

  -- `groups` of RecentRuns
  unfoldable pub recent_groups : List Run → List (Group Run)
  recent_groups runs = group_by run_key (sort_by newest_first runs)

  -- A group keeps the name of the run that opened it, its first.
  unfoldable pub group_shown : Text → Group Run → Bool
  group_shown q g = includes (locale.lower (first_name g.members)) (locale.lower q)

  -- `groups` of GroupedRuns
  unfoldable pub grouped_runs : List Run → Text → List (Group Run)
  unfolding recent_groups
  grouped_runs runs q = filter (group_shown q) (recent_groups runs)

-- a row of GroupedRuns with what unfolds underneath
pub record GroupRow : Type 0 where
  pub name : Text
  pub last : Run
  pub trend : Trend
  pub expanded : Bool
  pub history : List Run

-- `groups.map` of the table's body; `none` is a TypeError, which `g.runs[0]` of no runs would be
unfoldable pub group_row : List Text → Group Run → Option GroupRow
unfolding delta
group_row open_keys g = elim g.members [
  | [] ↦ none
  | r ∷ rs ↦
      let expanded = mem_text g.key open_keys in
      some (record {
        name = r.name;
        last = r;
        trend = delta g.members;
        expanded = expanded;
        history = if expanded then g.members else [];
      })
]
