-- ===== src/Runs/Examples.antt =====
-- Runs of the lists of runs and of a scan's steps, and their theorems at concrete inputs.
use scan_tls.Common.{
  arith, All, Text, str, true, false, List, [], ◌∷◌, none, some, ◌≡◌, refl, map, ◌==◌, keys, join,
  mem_text, group_by, sort_by, insert_by, lookup,
}
use scan_tls.Locale.{plain_locale, compare_text}
use scan_tls.Value.{show_nat}
use scan_tls.I18n.{en, fr, fill}
use scan_tls.I18n.Segments.{Avoids}
use scan_tls.I18n.En.{en_texts, en_1, en_2, en_3, en_4, en_5, en_6, en_7, en_8, en_9, en_10}
use scan_tls.I18n.Dictionaries.{translate, dictionary}
use scan_tls.Runs.{
  Run, recent_groups, grouped_runs, GroupRow, group_row, delta, worse, toggle, run_key,
  newest_first,
}
use scan_tls.Runs.History.{IsHistory, IsRow, grouped_runs_lem}
use scan_tls.Runs.Progress.{RunPlan, steps, step_states, pending, done, current, what}
use scan_tls.Runs.Progress.Texts.{IsLiteralPlan, what-Avoids}
use scan_tls.Runs.Progress.Steps.{IsAt, step_states_lem}

abbrev run : Text → Text → Run
run id queued = record {
  id = id;
  name = str "Weekly web";
  definition_id = some (str "d1");
  status = str "completed";
  queued_at = queued;
  non_compliant = some 2;
  formats = str "html" ∷ [];
}

abbrev other : Run
other = record (run (str "c") (str "2026-01-02")) { definition_id = none; non_compliant = none }

abbrev runs : List Run
runs =
    run (str "a") (str "2026-01-01")
    ∷ other
    ∷ record (run (str "b") (str "2026-01-03")) { non_compliant = some 5 }
    ∷ []

groups : keys (recent_groups plain_locale runs) ≡ str "d1" ∷ str "name:Weekly web" ∷ []
unfolding recent_groups newest_first run_key sort_by insert_by group_by compare_text ◌==◌
groups = refl

trend :
    delta (
      record (run (str "b") (str "2026-01-03")) { non_compliant = some 5 }
      ∷ other
      ∷ run (str "a") (str "2026-01-01")
      ∷ [])
    ≡ worse 3
unfolding delta
trend = refl

toggled : toggle (str "d1") (str "d2" ∷ str "d1" ∷ []) ≡ str "d2" ∷ []
unfolding toggle mem_text ◌==◌
toggled = refl

grouped_runs_lem_example :
    IsHistory plain_locale runs (recent_groups plain_locale runs)
    × All
        (λ g.
          (row : GroupRow) × (group_row (str "d1" ∷ []) g ≡ some row)
          × IsRow plain_locale (str "d1" ∷ []) g row)
        (grouped_runs plain_locale runs (str "web"))
grouped_runs_lem_example = grouped_runs_lem plain_locale runs (str "web") (str "d1" ∷ [])

abbrev plan : RunPlan
plan = record {
  targets = 3;
  ports = str "443" ∷ str "8443" ∷ [];
  crypto = str "pqc";
  certificate = true;
  trust = true;
  public_store = false;
  private_stores = str "ACME PKI" ∷ [];
  revocation = false;
  tls_checks = 12;
  policies = str "ANSSI" ∷ [];
  formats = str "html" ∷ [];
}

states :
    step_states false (str "discovery") (some plan)
    ≡ done ∷ done ∷ current ∷ pending ∷ pending ∷ pending ∷ []
unfolding step_states ◌==◌
states = refl

step_states_lem_example :
    IsAt (steps (some plan)) (str "discovery") (step_states false (str "discovery") (some plan))
    × (step_states true (str "discovery") (some plan) ≡ map (λ s. pending) (steps (some plan)))
step_states_lem_example = step_states_lem (str "discovery") (some plan)

tls_step :
    what (λ s. s) en (some plan) (str "tls_scan")
    ≡ str
        "TLS versions and cipher suites · certificate (validity, key, signature) · chain trust: ACME PKI · 12 complementary check(s)"
unfolding what translate dictionary fill ◌==◌ join show_nat lookup en_texts en_1 en_2 en_3 en_4 en_5
    en_6 en_7 en_8 en_9 en_10
tls_step = refl

plan-IsLiteralPlan : IsLiteralPlan (λ s. s) plan
plan-IsLiteralPlan = record {
  ports = ground arith;
  private_stores = ground arith;
  policies = ground arith;
  formats = ground arith;
}

what-Avoids_example : Avoids b'{' (what (λ s. s) fr (some plan) (str "tls_scan"))
what-Avoids_example = what-Avoids (λ s. s) fr plan (str "tls_scan") plan-IsLiteralPlan
