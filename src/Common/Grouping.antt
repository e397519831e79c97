-- ===== src/Common/Grouping.antt =====
-- Grouping by a text key with a `Map`, whose entries keep the order of first insertion.
use mathlib.Core.Path.{◌≡◌, refl, ap, ◌∙◌, sym}
use mathlib.Core.Logic.{◌≢◌, inl, inr}
use mathlib.Core.Bool.{true}
use mathlib.Core.List.{List, [], ◌∷◌, ◌++◌, map, Perm, append_assoc, append-nil, perm_middle}
use mathlib.Core.List.Perm
use native.Mathlib.Omega.{arith}
use scan_tls.Common.Tests.{if◌then◌else◌, Bool-cases}
use scan_tls.Common.Lists.{All, All-append, filter, flat_map}
use scan_tls.Common.Texts.{Text, ◌==◌, eq_iff, mem_text, append_distinct, distinct_from, distinct}

pub record Group {ℓ} (A : Type ℓ) : Type ℓ where
  pub key : Text
  pub members : List A

module _ {ℓ} {A : Type ℓ} where
  -- `if (!m.has(k)) m.set(k, []); m.get(k).push(x)`
  unfoldable pub push_member : Text → A → List (Group A) → List (Group A)
  push_member k x [] = record { key = k; members = x ∷ [] } ∷ []
  push_member k x (g ∷ gs) =
      if g.key == k
      then record { key = g.key; members = g.members ++ x ∷ [] } ∷ gs
      else g ∷ push_member k x gs

  -- `m.get(k) ?? []`
  pub members_of : Text → List (Group A) → List A
  members_of k [] = []
  members_of k (g ∷ gs) = if g.key == k then g.members else members_of k gs

  abbrev pub keys : List (Group A) → List Text
  keys [] = []
  keys (g ∷ gs) = g.key ∷ keys gs

  abbrev pub all_members : List (Group A) → List A
  all_members gs = flat_map (λ g. g.members) gs

  append-nonempty : (xs : List A) (x : A) → xs ++ x ∷ [] ≢ []
  append-nonempty [] x = λ e. cc
  append-nonempty (y ∷ ys) x = λ e. cc

  members_of-push_member :
      (j k : Text) (x : A) (gs : List (Group A))
      → members_of j (push_member k x gs)
        ≡ (if k == j then members_of j gs ++ x ∷ [] else members_of j gs)
  unfolding members_of push_member
  members_of-push_member j k x [] = ground arith
  members_of-push_member j k x (g ∷ gs) =
      ground (arith, eq_iff g.key k, eq_iff g.key j, eq_iff k j, members_of-push_member j k x gs)

  keys-push_member :
      (k : Text) (x : A) (gs : List (Group A))
      → keys (push_member k x gs) ≡ append_distinct (keys gs) k
  unfolding push_member append_distinct mem_text
  keys-push_member k x [] = refl
  keys-push_member k x (g ∷ gs) = ground (arith, keys-push_member k x gs)

  all_members-push_member :
      (k : Text) (x : A) (gs : List (Group A))
      → Perm (all_members (push_member k x gs)) (x ∷ all_members gs)
  unfolding push_member
  all_members-push_member k x [] = Perm.rfl
  all_members-push_member k x (g ∷ gs) = elim (Bool-cases (g.key == k)) [
    | inl same ↦
        rw (same, append_assoc g.members (x ∷ []) (all_members gs))
          (perm_middle g.members (all_members gs))
    | inr other ↦ rw other (
        Perm.trans (Perm.append_left g.members (all_members-push_member k x gs))
          (perm_middle g.members (all_members gs)))
  ]

  module _ (key_of : A → Text) where
    unfoldable pub group_from : List (Group A) → List A → List (Group A)
    group_from gs [] = gs
    group_from gs (x ∷ xs) = group_from (push_member (key_of x) x gs) xs

    unfoldable pub group_by : List A → List (Group A)
    unfolding group_from push_member
    group_by xs = group_from [] xs

    -- What holds of a group: it is not empty, and its members have its key.
    pub record IsGroup (g : Group A) : Type ℓ where
      pub nonempty : g.members ≢ []
      pub same_key : All (λ x. key_of x ≡ g.key) g.members

    IsGroup-append :
        (g : Group A) (x : A)
        → (g.key == key_of x) ≡ true
        → IsGroup g
        → IsGroup (record { key = g.key; members = g.members ++ x ∷ [] })
    IsGroup-append g x h v = record {
      nonempty = append-nonempty g.members x;
      same_key = All-append _ g.members (x ∷ []) v.same_key (sym ((eq_iff _ _).0 h), tt);
    }

    All-IsGroup-push_member :
        (x : A) (gs : List (Group A)) → All IsGroup gs → All IsGroup (push_member (key_of x) x gs)
    unfolding push_member
    All-IsGroup-push_member x [] h = (record { nonempty = λ e. cc; same_key = (refl, tt) }, tt)
    All-IsGroup-push_member x (g ∷ gs) (v, h) = elim (Bool-cases (g.key == key_of x)) [
      | inl same ↦ rw same (IsGroup-append g x same v, h)
      | inr other ↦ rw other (v, All-IsGroup-push_member x gs h)
    ]

    All-IsGroup-group_from :
        (gs : List (Group A)) (xs : List A) → All IsGroup gs → All IsGroup (group_from gs xs)
    unfolding group_from
    All-IsGroup-group_from gs [] h = h
    All-IsGroup-group_from gs (x ∷ xs) h =
        All-IsGroup-group_from (push_member (key_of x) x gs) xs (All-IsGroup-push_member x gs h)

    -- Every group has members, and they all have its key.
    pub group_by-IsGroup : (xs : List A) → All IsGroup (group_by xs)
    unfolding group_by
    group_by-IsGroup xs = All-IsGroup-group_from [] xs tt

    members_of-group_from :
        (j : Text) (gs : List (Group A)) (xs : List A)
        → members_of j (group_from gs xs) ≡ members_of j gs ++ filter (λ x. key_of x == j) xs
    unfolding group_from
    members_of-group_from j gs [] = sym (append-nil (members_of j gs))
    members_of-group_from j gs (x ∷ xs) = ground (
      arith,
      members_of-group_from j (push_member (key_of x) x gs) xs,
      members_of-push_member j (key_of x) x gs,
      append_assoc (members_of j gs) (x ∷ []) (filter (λ (y : A). key_of y == j) xs),
    )

    -- The group of a key is the elements with that key, in their order.
    pub members_of-group_by :
        (j : Text) (xs : List A) → members_of j (group_by xs) ≡ filter (λ x. key_of x == j) xs
    unfolding group_by members_of
    members_of-group_by j xs = members_of-group_from j [] xs

    keys-group_from :
        (gs : List (Group A)) (xs : List A)
        → keys (group_from gs xs) ≡ distinct_from (keys gs) (map key_of xs)
    unfolding group_from distinct_from
    keys-group_from gs [] = refl
    keys-group_from gs (x ∷ xs) =
        keys-group_from (push_member (key_of x) x gs) xs
        ∙ ap (λ ks. distinct_from ks (map key_of xs)) (keys-push_member (key_of x) x gs)

    -- The groups stand in the order in which their keys first occur, one group to a key.
    pub keys-group_by : (xs : List A) → keys (group_by xs) ≡ distinct (map key_of xs)
    unfolding group_by distinct
    keys-group_by xs = keys-group_from [] xs

    all_members-group_from :
        (gs : List (Group A)) (xs : List A)
        → Perm (all_members (group_from gs xs)) (xs ++ all_members gs)
    unfolding group_from
    all_members-group_from gs [] = Perm.rfl
    all_members-group_from gs (x ∷ xs) =
        Perm.trans (all_members-group_from (push_member (key_of x) x gs) xs) (
          Perm.trans (Perm.append_left xs (all_members-push_member (key_of x) x gs))
            (perm_middle xs (all_members gs)))

    -- Grouping loses and duplicates nothing.
    pub all_members-group_by : (xs : List A) → Perm (all_members (group_by xs)) xs
    unfolding group_by
    all_members-group_by xs = rw append-nil at (all_members-group_from [] xs)
