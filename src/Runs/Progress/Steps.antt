-- ===== src/Runs/Progress/Steps.antt =====
-- The states of the steps.
use scan_tls.Common.{
  Text, str, ℕ, suc, ◌+◌, ◌<◌, true, false, List, [], ◌∷◌, ◌++◌, map, Option, none, some, ◌≡◌, ◌⊎◌,
  refl, ap, sym, ◌∙◌, length, mem_text, ◌==◌, eq_iff, Bool-cases, inl, inr, arith,
}
use mathlib.Core.Path.{subst}
use scan_tls.Runs.Progress.{
  RunPlan, later_steps, steps, index_from, current_step, StepState, done, current, pending,
  step_state, states_from, step_states,
}

states_from-pending :
    (c i : ℕ) (ss : List Text) → c < i → states_from (some c) i ss ≡ map (λ s. pending) ss
unfolding states_from
states_from-pending c i [] h = refl
states_from-pending c i (s ∷ ss) h =
    let late : step_state (some c) i ≡ pending = ground arith in
    rw (late, states_from-pending c (suc i) ss (omega arith)) refl

states_from-none : (i : ℕ) (ss : List Text) → states_from none i ss ≡ map (λ s. pending) ss
unfolding states_from
states_from-none i [] = refl
states_from-none i (s ∷ ss) = ap (◌∷◌ pending) (states_from-none (suc i) ss)

-- Before the current step all is done, behind it nothing is begun.
states_from-split :
    (i c : ℕ) (before : List Text) (s : Text) (after : List Text)
    → c ≡ i + length before
    → states_from (some c) i (before ++ s ∷ after)
      ≡ map (λ t. done) before ++ current ∷ map (λ t. pending) after
unfolding states_from
states_from-split i c [] s after h =
    let here : step_state (some c) i ≡ current = ground arith in
    rw (here, states_from-pending c (suc i) after (omega arith)) refl
states_from-split i c (b ∷ before) s after h =
    let early : step_state (some c) i ≡ done = ground arith in
    rw (early, states_from-split (suc i) c before s after (omega arith)) refl

-- Where a list holds the phase, and what the index is then; the index is 0 otherwise.
index_from-split :
    (i : ℕ) (phase : Text) (ss : List Text)
    → mem_text phase ss ≡ true
    → (before after : List Text) × (ss ≡ before ++ phase ∷ after)
      × (index_from i phase ss ≡ i + length before)
unfolding index_from mem_text
index_from-split i phase [] h = cc
index_from-split i phase (s ∷ ss) h = elim (Bool-cases (s == phase)) [
  | inl same ↦ ([], ss, ap (λ t. t ∷ ss) ((eq_iff s phase).0 same), rw same (omega arith))
  | inr other ↦
      let (before, after, e, k) = index_from-split (suc i) phase ss (rw other at h) in
      (s ∷ before, after, ap (◌∷◌ s) e, rw (other, k) (omega arith))
]

index_from-absent :
    (i : ℕ) (phase : Text) (ss : List Text) → mem_text phase ss ≡ false → index_from i phase ss ≡ 0
unfolding index_from mem_text
index_from-absent i phase [] h = refl
index_from-absent i phase (s ∷ ss) h = ground (arith, index_from-absent (suc i) phase ss)

-- There is a first step.
steps-first : (plan : Option RunPlan) → (rest : List Text) × (steps plan ≡ str "starting" ∷ rest)
unfolding steps
steps-first none = (_, refl)
steps-first (some plan) = elim (Bool-cases (plan.crypto == str "pqc")) [
  | inl e ↦ (str "pqc_preflight" ∷ later_steps, rw (e, steps) refl)
  | inr e ↦ (later_steps, rw (e, steps) refl)
]

-- The states of a list of steps.
abbrev pub IsAt : List Text → Text → List StepState → Type 0
IsAt ss phase states =
    (before : List Text) × (step : Text) × (after : List Text) × (ss ≡ before ++ step ∷ after)
    × (states ≡ map (λ s. done) before ++ current ∷ map (λ s. pending) after)
    × ((step ≡ phase) ⊎ ((mem_text phase ss ≡ false) × (before ≡ [])))

states_from-IsAt :
    (first : Text) (rest : List Text) (phase : Text)
    → IsAt
        (first ∷ rest)
        phase
        (states_from (some (index_from 0 phase (first ∷ rest))) 0 (first ∷ rest))
states_from-IsAt first rest phase = elim (Bool-cases (mem_text phase (first ∷ rest))) [
  | inl known ↦
      let (before, after, e, k) = index_from-split 0 phase (first ∷ rest) known in
      (
        before,
        phase,
        after,
        e,
        ap (λ ss. states_from (some (index_from 0 phase (first ∷ rest))) 0 ss) e
            ∙ states_from-split 0 (index_from 0 phase (first ∷ rest)) before phase after k,
        inl refl,
      )
  | inr unknown ↦ (
    [],
    first,
    rest,
    refl,
    states_from-split 0 (index_from 0 phase (first ∷ rest)) [] first rest
        (index_from-absent 0 phase (first ∷ rest) unknown),
    inr (unknown, refl),
  )
]

-- A run that is not queued is at exactly one step: that of its phase, or the first if the phase is no
-- step. The steps before it are done, those behind it pending; of a queued run all are pending.
pub step_states_lem :
    (phase : Text) (plan : Option RunPlan)
    → IsAt (steps plan) phase (step_states false phase plan)
      × (step_states true phase plan ≡ map (λ s. pending) (steps plan))
unfolding step_states current_step
step_states_lem phase plan =
    let (rest, e) = steps-first plan in
    (
      subst (λ ss. IsAt ss phase (states_from (some (index_from 0 phase ss)) 0 ss)) (sym e)
          (states_from-IsAt (str "starting") rest phase),
      states_from-none 0 (steps plan),
    )
