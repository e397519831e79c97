-- ===== src/Common/GroupOrder.antt =====
-- The groups of a sorted list: their first members are in order, and so are the members of each.
use mathlib.Core.List.{append_assoc, append-nil}
use mathlib.Core.Path.{subst}
use scan_tls.Common.{
  Text, List, [], ◌∷◌, ◌++◌, Ordering, ◌≡◌, ◌≢◌, ◌⊎◌, inl, inr, refl, ap, sym, ◌∙◌, All, All-imp,
  take, flat_map, Group, group_from, push_member, IsSorted, Bool-cases, ◌==◌,
}

module _ {ℓ} {A : Type ℓ} where
  -- the first members of the groups
  abbrev pub heads : List (Group A) → List A
  heads gs = flat_map (λ g. take 1 g.members) gs

module _ {ℓ} {A : Type ℓ} (cmp : A → A → Ordering) where
  All-without :
      (P : A → Type 0) (xs : List A) (y : A) (ys : List A) → All P (xs ++ y ∷ ys) → All P (xs ++ ys)
  All-without P [] y ys (p, h) = h
  All-without P (x ∷ xs) y ys (p, h) = (p, All-without P xs y ys h)

  -- A sorted list without one of its elements is sorted.
  IsSorted-without :
      (xs : List A) (y : A) (ys : List A) → IsSorted cmp (xs ++ y ∷ ys) → IsSorted cmp (xs ++ ys)
  IsSorted-without [] y ys (below, s) = s
  IsSorted-without (x ∷ xs) y ys (below, s) =
      (All-without _ xs y ys below, IsSorted-without xs y ys s)

  IsSorted-front : (xs ys : List A) → IsSorted cmp (xs ++ ys) → IsSorted cmp xs
  IsSorted-front xs [] s = subst (IsSorted cmp) (append-nil xs) s
  IsSorted-front xs (y ∷ ys) s = IsSorted-front xs ys (IsSorted-without xs y ys s)

  abbrev pub HasMembers : Group A → Type ℓ
  HasMembers g = g.members ≢ []

  take-append : (m : List A) (x : A) → m ≢ [] → take 1 (m ++ x ∷ []) ≡ take 1 m
  take-append [] x h = absurd (h refl)
  take-append (y ∷ m) x h = refl

  -- A member opens a group behind the others, or joins one without becoming its first.
  heads-push_member :
      (k : Text) (x : A) (gs : List (Group A))
      → All HasMembers gs
      → (heads (push_member k x gs) ≡ heads gs) ⊎ (heads (push_member k x gs) ≡ heads gs ++ x ∷ [])
  unfolding push_member
  heads-push_member k x [] h = inr refl
  heads-push_member k x (g ∷ gs) (p, h) = elim (Bool-cases (g.key == k)) [
    | inl same ↦ inl (rw same (ap (λ m. m ++ heads gs) (take-append g.members x p)))
    | inr other ↦ elim (heads-push_member k x gs h) [
      | inl e ↦ inl (rw other (ap (λ m. take 1 g.members ++ m) e))
      | inr e ↦ inr (
          rw other (
            ap (λ m. take 1 g.members ++ m) e
            ∙ sym (append_assoc (take 1 g.members) (heads gs) (x ∷ []))))
    ]
  ]

  append-HasMembers : (m : List A) (x : A) → m ++ x ∷ [] ≢ []
  append-HasMembers [] x = λ e. cc
  append-HasMembers (y ∷ m) x = λ e. cc

  push_member-HasMembers :
      (k : Text) (x : A) (gs : List (Group A))
      → All HasMembers gs
      → All HasMembers (push_member k x gs)
  unfolding push_member
  push_member-HasMembers k x [] h = (λ e. cc, tt)
  push_member-HasMembers k x (g ∷ gs) (p, h) = elim (Bool-cases (g.key == k)) [
    | inl same ↦ rw same (append-HasMembers g.members x, h)
    | inr other ↦ rw other (p, push_member-HasMembers k x gs h)
  ]

  -- The groups of a sorted list, in the order of their first members.
  pub heads-group_from :
      (key_of : A → Text) (gs : List (Group A)) (xs : List A)
      → All HasMembers gs
      → IsSorted cmp (heads gs ++ xs)
      → IsSorted cmp (heads (group_from key_of gs xs))
  unfolding group_from
  heads-group_from key_of gs [] h s = IsSorted-front (heads gs) [] s
  heads-group_from key_of gs (x ∷ xs) h s =
      heads-group_from key_of (push_member (key_of x) x gs) xs
        (push_member-HasMembers (key_of x) x gs h)
        (elim (heads-push_member (key_of x) x gs h) [
          | inl e ↦ subst (λ m. IsSorted cmp (m ++ xs)) (sym e) (IsSorted-without (heads gs) x xs s)
          | inr e ↦
              subst (λ m. IsSorted cmp (m ++ xs)) (sym e)
                (subst (IsSorted cmp) (sym (append_assoc (heads gs) (x ∷ []) xs)) s)
        ])

  -- Each group, with what is still to come, is sorted.
  abbrev pub SortedWith : List A → Group A → Type ℓ
  SortedWith rest g = IsSorted cmp (g.members ++ rest)

  push_member-SortedWith :
      (k : Text) (x : A) (xs : List A) (gs : List (Group A))
      → IsSorted cmp (x ∷ xs)
      → All (SortedWith (x ∷ xs)) gs
      → All (SortedWith xs) (push_member k x gs)
  unfolding push_member
  push_member-SortedWith k x xs [] s h = (s, tt)
  push_member-SortedWith k x xs (g ∷ gs) s (p, h) = elim (Bool-cases (g.key == k)) [
    | inl same ↦ rw same (
      subst (IsSorted cmp) (sym (append_assoc g.members (x ∷ []) xs)) p,
      All-imp (λ f q. IsSorted-without f.members x xs q) gs h,
    )
    | inr other ↦ rw other (IsSorted-without g.members x xs p, push_member-SortedWith k x xs gs s h)
  ]

  pub members-group_from :
      (key_of : A → Text) (gs : List (Group A)) (xs : List A)
      → IsSorted cmp xs
      → All (SortedWith xs) gs
      → All (λ g. IsSorted cmp g.members) (group_from key_of gs xs)
  unfolding group_from
  members-group_from key_of gs [] s h = All-imp (λ g p. IsSorted-front g.members [] p) gs h
  members-group_from key_of gs (x ∷ xs) s h =
      members-group_from key_of (push_member (key_of x) x gs) xs s.1
        (push_member-SortedWith (key_of x) x xs gs s h)
