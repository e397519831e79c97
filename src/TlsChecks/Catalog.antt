-- ===== src/TlsChecks/Catalog.antt =====
-- Which checks the profile form shows and preselects.
use scan_tls.Common.{
  Text, true, List, [], ◌∷◌, map, some, ◌≡◌, refl, filter, any, ap, ◌∙◌, false, ◌==◌, ◌&&◌, ◌||◌,
  arith, Perm, keys, keys-group_by, all_members, all_members-group_by, members_of,
  members_of-group_by, distinct,
}
use scan_tls.Json.{Json, Fields, get, put, get-put}
use scan_tls.TlsChecks.{
  TlsCheckSpec, entry_of, entry_enabled, enabled_entry, enabled_entries, is_enabled,
  group_by_family, recommended_section,
}
use scan_tls.TlsChecks.Sections.{entry_of-some, enabled_entry-enabled}

is_enabled-put :
    (section : Fields) (id j : Text)
    → is_enabled (some (put id (Json.obj (enabled_entry true)) section)) j
      ≡ (id == j || is_enabled (some section) j)
unfolding is_enabled
is_enabled-put section id j = ground (
  arith,
  entry_of-some (put id (Json.obj (enabled_entry true)) section) j,
  entry_of-some section j,
  get-put j id (Json.obj (enabled_entry true)) section,
  enabled_entry-enabled true,
)

is_enabled-enabled_entries :
    (checks : List TlsCheckSpec) (section : Fields) (j : Text)
    → is_enabled (some (enabled_entries checks section)) j
      ≡ (is_enabled (some section) j || any (λ c. c.id == j) checks)
unfolding enabled_entries
is_enabled-enabled_entries [] section j = ground arith
is_enabled-enabled_entries (c ∷ cs) section j = ground (
  arith,
  is_enabled-enabled_entries cs (put c.id (Json.obj (enabled_entry true)) section) j,
  is_enabled-put section c.id j,
)

is_enabled-end : (j : Text) → is_enabled (some Fields.end) j ≡ false
unfolding is_enabled entry_of entry_enabled get
is_enabled-end j = refl

any-filter :
    (j : Text) (catalog : List TlsCheckSpec)
    → any (λ c. c.id == j) (filter (λ c. c.recommended) catalog)
      ≡ any (λ c. c.recommended && c.id == j) catalog
any-filter j [] = refl
any-filter j (c ∷ cs) = ground (arith, any-filter j cs)

-- The groups of the form partition the checks: none is lost or doubled, a family has one group, in
-- the order of first occurrence, and the group holds the family's checks in their order.
group_by_family_lem :
    (checks : List TlsCheckSpec) (family : Text)
    → Perm (all_members (group_by_family checks)) checks
      × (keys (group_by_family checks) ≡ distinct (map (λ c. c.family) checks))
      × (members_of family (group_by_family checks) ≡ filter (λ c. c.family == family) checks)
unfolding group_by_family
group_by_family_lem checks family = (
  all_members-group_by (λ c. c.family) checks,
  keys-group_by (λ c. c.family) checks,
  members_of-group_by (λ c. c.family) family checks,
)

-- The section of a new profile enables exactly the recommended checks of the catalogue.
is_enabled-recommended_section :
    (catalog : List TlsCheckSpec) (j : Text)
    → is_enabled (some (recommended_section catalog)) j
      ≡ any (λ c. c.recommended && c.id == j) catalog
unfolding recommended_section
is_enabled-recommended_section catalog j =
    is_enabled-enabled_entries (filter (λ c. c.recommended) catalog) Fields.end j
    ∙ (ap (λ b. b || any (λ c. c.id == j) (filter (λ c. c.recommended) catalog)) (is_enabled-end j)
        ∙ any-filter j catalog)
