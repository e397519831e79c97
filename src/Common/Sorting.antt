-- ===== src/Common/Sorting.antt =====
-- `Array.prototype.sort` with a comparator. Of the comparator's number only the sign is read, so it
-- is an `Ordering`; NaN counts as 0, which is `eq`. The sort is stable.
use Prim.Native.Nat.{ℕ, zero, suc, Ordering, compare}
use mathlib.Core.Path.{◌≡◌, refl, ◌∙◌}
use mathlib.Core.Logic.{◌≢◌, inl, inr}
use mathlib.Core.Bool.{Bool, true, false}
use mathlib.Core.List.{List, [], ◌∷◌, Perm}
use mathlib.Core.List.Perm
use native.Mathlib.Omega.{arith}
use scan_tls.Common.Tests.{if◌then◌else◌, Bool-cases}
use scan_tls.Common.Texts.{Text, mem_text}
use scan_tls.Common.Lists.{All, All-imp, All-take, take, filter}

abbrev pub gtb : Ordering → Bool
gtb Ordering.gt = true
gtb _ = false

-- `-c`
abbrev pub swap_order : Ordering → Ordering
swap_order Ordering.lt = Ordering.gt
swap_order Ordering.eq = Ordering.eq
swap_order Ordering.gt = Ordering.lt

-- `c || d`
abbrev pub then_by : Ordering → Ordering → Ordering
then_by Ordering.eq d = d
then_by c _ = c

module _ {ℓ} {A : Type ℓ} (cmp : A → A → Ordering) where
  unfoldable pub insert_by : A → List A → List A
  insert_by x [] = x ∷ []
  insert_by x (y ∷ ys) = if gtb (cmp x y) then y ∷ insert_by x ys else x ∷ y ∷ ys

  unfoldable pub sort_by : List A → List A
  sort_by [] = []
  sort_by (x ∷ xs) = insert_by x (sort_by xs)

  -- What the documentation asks of a comparator, on the elements that meet `P`: antisymmetric, and
  -- transitive in `≤ 0`.
  pub record IsPreorder {κ} (P : A → Type κ) : Type (ℓ ⊔ κ) where
    pub flip : (a b : A) → P a → P b → cmp b a ≡ swap_order (cmp a b)
    pub trans :
        (a b c : A)
        → P a
        → P b
        → P c
        → gtb (cmp a b) ≡ false
        → gtb (cmp b c) ≡ false
        → gtb (cmp a c) ≡ false

  -- No element is greater than a later one.
  abbrev pub IsSorted : List A → Type ℓ
  IsSorted [] = Unit
  IsSorted (x ∷ xs) = All (λ y. gtb (cmp x y) ≡ false) xs × IsSorted xs

  insert_by-perm : (x : A) (ys : List A) → Perm (insert_by x ys) (x ∷ ys)
  unfolding insert_by
  insert_by-perm x [] = Perm.rfl
  insert_by-perm x (y ∷ ys) = elim (Bool-cases (gtb (cmp x y))) [
    | inl after ↦ rw after (Perm.trans (Perm.cons y (insert_by-perm x ys)) (Perm.swap x y ys))
    | inr before ↦ rw before Perm.rfl
  ]

  -- Sorting rearranges, whatever the comparator answers.
  pub sort_by-perm : (xs : List A) → Perm (sort_by xs) xs
  unfolding sort_by
  sort_by-perm [] = Perm.rfl
  sort_by-perm (x ∷ xs) = Perm.trans (insert_by-perm x (sort_by xs)) (Perm.cons x (sort_by-perm xs))

  All-insert_by {κ} :
      (P : A → Type κ) (x : A) (ys : List A) → P x → All P ys → All P (insert_by x ys)
  unfolding insert_by
  All-insert_by P x [] p h = (p, tt)
  All-insert_by P x (y ∷ ys) p (q, h) = elim (Bool-cases (gtb (cmp x y))) [
    | inl after ↦ rw after (q, All-insert_by P x ys p h)
    | inr before ↦ rw before (p, (q, h))
  ]

  pub All-sort_by {κ} : (P : A → Type κ) (xs : List A) → All P xs → All P (sort_by xs)
  unfolding sort_by
  All-sort_by P [] h = tt
  All-sort_by P (x ∷ xs) (p, h) = All-insert_by P x (sort_by xs) p (All-sort_by P xs h)

  insert_by-nonempty : (x : A) (ys : List A) → insert_by x ys ≢ []
  unfolding insert_by
  insert_by-nonempty x [] = λ e. cc
  insert_by-nonempty x (y ∷ ys) = ground arith

  pub sort_by-nonempty : (xs : List A) → xs ≢ [] → sort_by xs ≢ []
  unfolding sort_by
  sort_by-nonempty [] h = absurd (h refl)
  sort_by-nonempty (x ∷ xs) h = insert_by-nonempty x (sort_by xs)

  module _ {κ} (P : A → Type κ) (o : IsPreorder P) where
    flip_gt : (a b : A) → P a → P b → gtb (cmp a b) ≡ true → gtb (cmp b a) ≡ false
    flip_gt a b pa pb h = ground (arith, o.flip a b pa pb)

    below-All :
        (x y : A) (ys : List A)
        → P x
        → P y
        → All P ys
        → gtb (cmp x y) ≡ false
        → All (λ z. gtb (cmp y z) ≡ false) ys
        → All (λ z. gtb (cmp x z) ≡ false) ys
    below-All x y [] px py hp h below = tt
    below-All x y (z ∷ zs) px py (pz, hp) h (q, below) =
        (o.trans x y z px py pz h q, below-All x y zs px py hp h below)

    insert_by-IsSorted :
        (x : A) (ys : List A) → P x → All P ys → IsSorted ys → IsSorted (insert_by x ys)
    unfolding insert_by
    insert_by-IsSorted x [] px hp s = (tt, tt)
    insert_by-IsSorted x (y ∷ ys) px (py, hp) (below, s) = elim (Bool-cases (gtb (cmp x y))) [
      | inl after ↦
          rw after
            (All-insert_by _ x ys (flip_gt x y px py after) below, insert_by-IsSorted x ys px hp s)
      | inr before ↦ rw before ((before, below-All x y ys px py hp before below), (below, s))
    ]

    -- Under a consistent comparator the result is in order.
    pub sort_by-IsSorted : (xs : List A) → All P xs → IsSorted (sort_by xs)
    unfolding sort_by
    sort_by-IsSorted [] h = tt
    sort_by-IsSorted (x ∷ xs) (p, h) =
        insert_by-IsSorted x (sort_by xs) p (All-sort_by P xs h) (sort_by-IsSorted xs h)

  -- Elements that all tie, or are in order already, are left as they are.
  pub sort_by-eq_self : (xs : List A) → IsSorted xs → sort_by xs ≡ xs
  unfolding sort_by insert_by
  sort_by-eq_self [] s = refl
  sort_by-eq_self (x ∷ []) s = refl
  sort_by-eq_self (x ∷ y ∷ ys) ((p, h), s) = rw (sort_by-eq_self (y ∷ ys) s) (rw p refl)

  pub IsSorted-of_ties {κ} :
      (P : A → Type κ)
      → ((a b : A) → P a → P b → gtb (cmp a b) ≡ false)
      → (xs : List A) → All P xs
      → IsSorted xs
  IsSorted-of_ties P ties [] h = tt
  IsSorted-of_ties P ties (x ∷ xs) (p, h) =
      (All-imp (λ y q. ties x y p q) xs h, IsSorted-of_ties P ties xs h)

  pub IsSorted-take : (n : ℕ) (xs : List A) → IsSorted xs → IsSorted (take n xs)
  IsSorted-take zero xs s = tt
  IsSorted-take (suc n) [] s = tt
  IsSorted-take (suc n) (x ∷ xs) (below, s) = (All-take _ n xs below, IsSorted-take n xs s)

  module _ (p : A → Bool) (ties : (a b : A) → p a ≡ true → p b ≡ true → gtb (cmp a b) ≡ false) where
    filter-insert_by : (x : A) (ys : List A) → filter p (insert_by x ys) ≡ filter p (x ∷ ys)
    unfolding insert_by
    filter-insert_by x [] = refl
    filter-insert_by x (y ∷ ys) = ground (arith, ties x y, filter-insert_by x ys)

    -- Stability: elements that tie keep their order.
    pub filter-sort_by : (xs : List A) → filter p (sort_by xs) ≡ filter p xs
    unfolding sort_by
    filter-sort_by [] = refl
    filter-sort_by (x ∷ xs) = filter-insert_by x (sort_by xs) ∙ ground (arith, filter-sort_by xs)

-- Comparators built from comparators.
module _ {ℓ κ} {A : Type ℓ} (P : A → Type κ) where
  pub then_by-IsPreorder :
      (c d : A → A → Ordering)
      → IsPreorder c P
      → IsPreorder d P
      → IsPreorder (λ a b. then_by (c a b) (d a b)) P
  then_by-IsPreorder c d oc od = record {
    flip = λ x y px py. ground (arith, oc.flip x y px py, od.flip x y px py);
    trans = λ x y z px py pz p q. ground (
      arith,
      oc.flip x y px py,
      oc.flip y z py pz,
      oc.flip x z px pz,
      oc.trans x y z px py pz,
      oc.trans y z x py pz px,
      oc.trans z x y pz px py,
      od.trans x y z px py pz,
    );
  }

  pub on_nat-IsPreorder : (f : A → ℕ) → IsPreorder (λ a b. compare (f a) (f b)) P
  on_nat-IsPreorder f = record {
    flip = λ x y px py. ground arith;
    trans = λ x y z px py pz p q. ground arith;
  }

  pub reverse-IsPreorder : (c : A → A → Ordering) → IsPreorder c P → IsPreorder (λ a b. c b a) P
  reverse-IsPreorder c oc = record {
    flip = λ x y px py. oc.flip y x py px;
    trans = λ x y z px py pz p q. oc.trans z y x pz py px q p;
  }

  pub on-IsPreorder {μ} :
      {B : Type μ} (f : A → B) (c : B → B → Ordering)
      → IsPreorder c (λ b. Unit {0})
      → IsPreorder (λ a b. c (f a) (f b)) P
  on-IsPreorder f c oc = record {
    flip = λ x y px py. oc.flip (f x) (f y) tt tt;
    trans = λ x y z px py pz p q. oc.trans (f x) (f y) (f z) tt tt tt p q;
  }

-- Sorting texts keeps which texts there are.
module _ (cmp : Text → Text → Ordering) where
  mem_text-insert_by :
      (s x : Text) (ys : List Text) → mem_text s (insert_by cmp x ys) ≡ mem_text s (x ∷ ys)
  unfolding mem_text insert_by
  mem_text-insert_by s x [] = refl
  mem_text-insert_by s x (y ∷ ys) = ground (arith, mem_text-insert_by s x ys)

  pub mem_text-sort_by : (s : Text) (xs : List Text) → mem_text s (sort_by cmp xs) ≡ mem_text s xs
  unfolding mem_text sort_by
  mem_text-sort_by s [] = refl
  mem_text-sort_by s (x ∷ xs) =
      mem_text-insert_by s x (sort_by cmp xs) ∙ ground (arith, mem_text-sort_by s xs)

-- A list in order by one comparator is in order by another that the first refines.
pub IsSorted-imp {ℓ κ} :
    {A : Type ℓ}
    → (P : A → Type κ) (c d : A → A → Ordering)
    → ((a b : A) → P a → P b → gtb (c a b) ≡ false → gtb (d a b) ≡ false)
    → (xs : List A) → All P xs
    → IsSorted c xs
    → IsSorted d xs
IsSorted-imp P c d refines [] h s = tt
IsSorted-imp P c d refines (x ∷ xs) (p, h) (below, s) =
    (below_imp xs h below, IsSorted-imp P c d refines xs h s)
  where
    below_imp :
        (ys : List _)
        → All P ys
        → All (λ y. gtb (c x y) ≡ false) ys
        → All (λ y. gtb (d x y) ≡ false) ys
    below_imp [] h b = tt
    below_imp (y ∷ ys) (q, h) (b, bs) = (refines x y p q b, below_imp ys h bs)
