-- ===== src/Page/Navigation.antt =====
-- Which section the navigation takes for the current one.
use scan_tls.Common.{
  Text, Bool, true, false, List, [], ◌∷◌, ◌++◌, some, foldl, if◌then◌else◌, ◌≡◌, ◌≢◌, refl, ◌⊎◌,
  inl, inr, All, Bool-cases, All-append, ap, sym, ◌∙◌,
}
use mathlib.Core.List.{append-nil, append_assoc}
use scan_tls.Numbers.{Decimal}
use scan_tls.Page.{is_above, keep_above, current_section}

module _ (top : Text → Decimal) where
  -- The current one of the sections: the last that is above the line, or the first if none is.
  pub record IsCurrent (sections : List Text) (current : Text) : Type 0 where
    pub before : List Text
    pub after : List Text
    pub split : sections ≡ before ++ current ∷ after
    pub later_below : All (λ id. is_above top id ≡ false) after
    pub above_or_first : (is_above top current ≡ true) ⊎ (before ≡ [])

  -- The rest of the `reduce`, where `current` is the current one of the sections before `rest`.
  step-IsCurrent :
      (sections before after : List Text) (current : Text) (rest : List Text)
      → sections ≡ (before ++ current ∷ after) ++ rest
      → All (λ id. is_above top id ≡ false) after
      → (is_above top current ≡ true) ⊎ (before ≡ [])
      → IsCurrent sections (foldl (keep_above top) current rest)
  step-IsCurrent sections before after current [] e below at = record {
    before = before;
    after = after;
    split = e ∙ append-nil (before ++ current ∷ after);
    later_below = below;
    above_or_first = at;
  }
  step-IsCurrent sections before after current (r ∷ rs) e below at =
      elim (Bool-cases (is_above top r)) [
        | inl above ↦ rw above (
            step-IsCurrent sections (before ++ current ∷ after) [] r rs
              (e ∙ sym (append_assoc (before ++ current ∷ after) (r ∷ []) rs)) tt (inl above))
        | inr not_above ↦ rw not_above (
            step-IsCurrent sections before (after ++ r ∷ []) current rs (e ∙ regroup r rs)
              (All-append _ after (r ∷ []) below (not_above, tt)) at)
      ]
    where
      regroup :
          (r : Text) (rs : List Text)
          → (before ++ current ∷ after) ++ r ∷ rs ≡ (before ++ current ∷ (after ++ r ∷ [])) ++ rs
      regroup r rs =
          sym (append_assoc (before ++ current ∷ after) (r ∷ []) rs)
          ∙ ap (λ ss. ss ++ rs) (append_assoc before (current ∷ after) (r ∷ []))

  -- With at least one section, the current one is the last section whose top is at most 120 pixels
  -- below the upper edge, or the first section where there is no such one.
  pub current_section-IsCurrent :
      (sections : List Text)
      → sections ≢ []
      → (current : Text) × (current_section top sections ≡ some current)
        × IsCurrent sections current
  unfolding current_section
  current_section-IsCurrent [] h = absurd (h refl)
  current_section-IsCurrent (first ∷ rest) h = (
    foldl (keep_above top) first (first ∷ rest),
    refl,
    rw (keep_same (is_above top first) first)
        (step-IsCurrent (first ∷ rest) [] [] first rest refl tt (inr refl)),
  )
    where
      keep_same : (b : Bool) (t : Text) → (if b then t else t) ≡ t
      keep_same true t = refl
      keep_same false t = refl
