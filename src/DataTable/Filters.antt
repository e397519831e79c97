-- ===== src/DataTable/Filters.antt =====
-- The filters of the frontend's table: which rows its columns keep.
use scan_tls.Common.{
  ◌==◌, arith, true, none, Text, Text, true, List, Option, none, some, ◌==◌, ◌≡◌, inl, inr, refl,
  any, lookup, mem_text, mem_text_self, ◌↔◌, sym, and-true, Bool-cases, List, [], ◌∷◌, eq_iff,
}
use mathlib.Core.Bool.{true≢false}
use scan_tls.DataTable.{Column, row_kept, column_keeps}

-- A column keeps a row if it has no filter or no values, or one of the row's values is chosen.
abbrev pub Keeps {ℓ} : {A : Type ℓ} → Option (List Text) → Option (A → List Text) → A → Type 0
Keeps none values r = Unit
Keeps (some f) none r = Unit
Keeps (some []) (some values) r = Unit
Keeps (some (v ∷ f)) (some values) r =
    (t : Text) × (mem_text t (values r) ≡ true) × (mem_text t (v ∷ f) ≡ true)

common_value :
    (f vs : List Text)
    → any (λ v. mem_text v f) vs ≡ true
    → (t : Text) × (mem_text t vs ≡ true) × (mem_text t f ≡ true)
unfolding mem_text
common_value f [] h = absurd (true≢false (sym h))
common_value f (v ∷ vs) h = elim (Bool-cases (mem_text v f)) [
  | inl e ↦ (v, mem_text_self v vs, e)
  | inr e ↦ let (t, m, n) = common_value f vs (ground arith) in (t, ground arith, n)
]

any-common_value :
    (f vs : List Text) (t : Text)
    → mem_text t vs ≡ true
    → mem_text t f ≡ true
    → any (λ v. mem_text v f) vs ≡ true
unfolding mem_text
any-common_value f [] t m n = absurd (true≢false (sym m))
any-common_value f (v ∷ vs) t m n = elim (Bool-cases (v == t)) [
  | inl e ↦ rw ((eq_iff v t).0 e, n) refl
  | inr e ↦ ground (arith, any-common_value f vs t)
]

column_keeps_iff {ℓ} :
    {A : Type ℓ}
    → (f : Option (List Text)) (values : Option (A → List Text)) (r : A)
    → (column_keeps f values r ≡ true) ↔ Keeps f values r
unfolding column_keeps
column_keeps_iff none values r = (λ e. tt, λ k. refl)
column_keeps_iff (some f) none r = (λ e. tt, λ k. refl)
column_keeps_iff (some []) (some values) r = (λ e. tt, λ k. refl)
column_keeps_iff (some (v ∷ f)) (some values) r =
    (λ e. common_value (v ∷ f) (values r) e, λ (t, m, n). any-common_value (v ∷ f) (values r) t m n)

-- every column keeps the row
abbrev pub AllKeep {ℓ} : {A : Type ℓ} → List (Text × List Text) → List (Column A) → A → Type 0
AllKeep filters [] r = Unit
AllKeep filters (c ∷ cs) r = Keeps (lookup c.key filters) c.values r × AllKeep filters cs r

pub row_kept_iff {ℓ} :
    {A : Type ℓ}
    → (filters : List (Text × List Text)) (columns : List (Column A)) (r : A)
    → (row_kept filters columns r ≡ true) ↔ AllKeep filters columns r
unfolding row_kept
row_kept_iff filters [] r = (λ e. tt, λ k. refl)
row_kept_iff filters (c ∷ cs) r =
    let (there, back) = column_keeps_iff (lookup c.key filters) c.values r in
    let (there_all, back_all) = row_kept_iff filters cs r in
    (
      λ e. let (p, q) = and-true _ _ e in (there p, there_all q),
      λ (k, ks). rw (back k, back_all ks) refl,
    )
