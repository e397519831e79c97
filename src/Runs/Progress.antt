-- ===== src/Runs/Progress.antt =====
-- frontend/src/components/ScanProgress.tsx: the steps of a running scan, which one it is at, and what
-- each of them does, in the user's language.
pub mod Steps
pub mod Texts
use scan_tls.Common.{
  Text, str, ℕ, suc, zero, ◌+◌, Bool, true, false, List, [], ◌∷◌, ◌++◌, map, Option, none, some,
  ◌==◌, ltb, eqb, ◌&&◌, if◌then◌else◌, join,
}
use scan_tls.Value.{show_nat}
use scan_tls.I18n.{Language}
use scan_tls.I18n.Dictionaries.{translate}

-- `RunPlan`
pub record RunPlan : Type 0 where
  pub targets : ℕ
  pub ports : List Text
  pub crypto : Text
  pub certificate : Bool
  pub trust : Bool
  pub public_store : Bool
  pub private_stores : List Text
  pub revocation : Bool
  pub tls_checks : ℕ
  pub policies : List Text
  pub formats : List Text

-- `BASE_STEPS` behind its first element
abbrev pub later_steps : List Text
later_steps = str "discovery" ∷ str "tls_scan" ∷ str "grading" ∷ str "reporting" ∷ []

-- `steps`, by `plan?.crypto`
unfoldable pub steps : Option RunPlan → List Text
unfolding ◌==◌
steps none = str "starting" ∷ later_steps
steps (some plan) =
    if plan.crypto == str "pqc"
    then str "starting" ∷ str "pqc_preflight" ∷ later_steps
    else str "starting" ∷ later_steps

-- `Math.max(0, steps.indexOf(phase))`
unfoldable pub index_from : ℕ → Text → List Text → ℕ
unfolding ◌==◌
index_from i phase [] = 0
index_from i phase (s ∷ ss) = if s == phase then i else index_from (suc i) phase ss

-- `current`; `none` is -1
unfoldable pub current_step : Bool → Text → List Text → Option ℕ
unfolding index_from
current_step queued phase ss = if queued then none else some (index_from 0 phase ss)

pub data StepState : Type 0 where
  done current pending : StepState

abbrev pub step_state : Option ℕ → ℕ → StepState
step_state none i = pending
step_state (some c) i = if ltb i c then done else if eqb i c then current else pending

-- `steps.map((step, i) => …)`
unfoldable pub states_from : Option ℕ → ℕ → List Text → List StepState
states_from c i [] = []
states_from c i (s ∷ ss) = step_state c i ∷ states_from c (suc i) ss

-- the states of the steps of a run
unfoldable pub step_states : Bool → Text → Option RunPlan → List StepState
unfolding states_from current_step steps
step_states queued phase plan =
    let ss = steps plan in states_from (current_step queued phase ss) 0 ss

abbrev pub part_if : Bool → Text → List Text
part_if test s = if test then s ∷ [] else []

module _ (l : Language) where
  -- the stores of `prog.what.trust`
  unfoldable pub store_names : RunPlan → Text
  unfolding join
  store_names plan = join (str ", ") (
      part_if plan.public_store (translate l (str "prog.what.publicStore") [])
      ++ plan.private_stores)

  -- `parts` of the step "tls_scan"
  unfoldable pub tls_parts : RunPlan → List Text
  unfolding store_names show_nat
  tls_parts plan =
      translate l (str "prog.what.tls") []
      ∷ (part_if plan.certificate (translate l (str "prog.what.cert") [])
          ++ (part_if (plan.certificate && plan.trust)
                (translate l (str "prog.what.trust") ((str "stores", store_names plan) ∷ []))
              ++ (part_if (plan.certificate && plan.revocation)
                    (translate l (str "prog.what.revocation") [])
                  ++ part_if (ltb 0 plan.tls_checks) (
                      translate l (str "prog.what.tlsChecks")
                        ((str "n", show_nat plan.tls_checks) ∷ [])))))

module _ (upper : Text → Text) (l : Language) where
  -- `what`
  unfoldable pub what : Option RunPlan → Text → Text
  unfolding tls_parts ◌==◌
  what none step = []
  what (some plan) step =
      if step == str "starting"
      then translate l (str "prog.what.starting") ((str "n", show_nat plan.targets) ∷ [])
      else if step == str "pqc_preflight"
      then translate l (str "prog.what.pqc_preflight") []
      else if step == str "discovery"
      then translate l (str "prog.what.discovery")
          ((str "ports", join (str " · ") plan.ports) ∷ (str "n", show_nat plan.targets) ∷ [])
      else if step == str "tls_scan"
      then join (str " · ") (tls_parts l plan)
      else if step == str "grading"
      then translate l (str "prog.what.grading")
          ((str "policies", join (str ", ") plan.policies) ∷ [])
      else translate l (str "prog.what.reporting")
          ((str "formats", join (str ", ") (map upper plan.formats)) ∷ [])
