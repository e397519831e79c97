-- ===== src/TlsChecks/Sections.antt =====
-- Writing the section: what is read back, and what is left alone.
use scan_tls.Common.{
  Text, str, ℕ, Bool, true, false, Option, none, some, ◌≡◌, refl, sym, ◌∙◌, ap, ◌==◌, eq_iff,
  eq_refl, if◌then◌else◌, arith, suc, List, [], ◌∷◌, Bool-cases, inl, inr,
}
use scan_tls.Json.{Json, Fields, end, field, get, put, remove, get-put, get-remove, index_fields}
use scan_tls.TlsChecks.{
  is_true, or_empty, entry_of, is_true, entry_enabled, is_enabled, enabled_entry, set_enabled,
  entry_option, get_option, entry_mapping, set_entry, set_option, spread, is_end, with_tls_section,
}

entry_of-or_empty :
    (section : Option Fields) (id : Text) → get id (or_empty section) ≡ entry_of section id
unfolding or_empty entry_of get
entry_of-or_empty none id = refl
entry_of-or_empty (some section) id = refl

pub entry_of-some : (section : Fields) (id : Text) → entry_of (some section) id ≡ get id section
unfolding entry_of
entry_of-some section id = refl

pub entry_of-put :
    (section : Option Fields) (id j : Text) (v : Json)
    → entry_of (some (put id v (or_empty section))) j
      ≡ (if id == j then some v else entry_of section j)
entry_of-put section id j v = ground (
  arith,
  entry_of-some (put id v (or_empty section)) j,
  get-put j id v (or_empty section),
  entry_of-or_empty section j,
)

entry_enabled-none : entry_enabled none ≡ false
unfolding entry_enabled
entry_enabled-none = refl

pub enabled_entry-enabled : (b : Bool) → entry_enabled (some (Json.obj (enabled_entry b))) ≡ b
unfolding entry_enabled get ◌==◌
enabled_entry-enabled true = refl
enabled_entry-enabled false = refl

pub get-set_entry :
    (other name : Text) (value : Option Json) (entry : Fields)
    → get other (set_entry name value entry) ≡ (if name == other then value else get other entry)
unfolding set_entry
get-set_entry other name none entry = get-remove other name entry
get-set_entry other name (some v) entry = get-put other name v entry

is_true-index_fields :
    (key : Text) (i : ℕ) (ns : List ℕ) → is_true (get key (index_fields i ns)) ≡ false
unfolding get index_fields
is_true-index_fields key i [] = refl
is_true-index_fields key i (n ∷ ns) = ground (arith, is_true-index_fields key (suc i) ns)

-- `setEnabled` sets exactly one check: it is enabled afterwards as asked, whatever the profile said
-- of it before, and every other check is as it was.
pub is_enabled-set_enabled :
    (section : Option Fields) (id j : Text) (enabled : Bool)
    → is_enabled (some (set_enabled section id enabled)) j
      ≡ (if id == j then enabled else is_enabled section j)
unfolding is_enabled set_enabled
is_enabled-set_enabled section id j true = ground (
  arith,
  get-put j id (Json.obj (enabled_entry true)) (or_empty section),
  enabled_entry-enabled true,
  entry_of-some (put id (Json.obj (enabled_entry true)) (or_empty section)) j,
  entry_of-or_empty section j,
)
is_enabled-set_enabled section id j false = ground (
  arith,
  get-remove j id (or_empty section),
  entry_enabled-none,
  entry_of-some (remove id (or_empty section)) j,
  entry_of-or_empty section j,
)

-- What `setOption` sets is read back by `getOption`; a removed option reads as not set; the other
-- options of a check that is a mapping, and all of the other checks, read as before.
pub get_option-set_option :
    (section : Option Fields) (id name j other : Text) (value : Option Json) (entry : Fields)
    → entry_of section id ≡ some (Json.obj entry)
    → get_option (some (set_option section id name value)) j other ≡ (
        if id == j
        then if name == other then value else get_option section j other
        else get_option section j other)
unfolding get_option set_option entry_option get entry_mapping
get_option-set_option section id name j other value entry mapping = elim (Bool-cases (id == j)) [
  | inl same ↦
      rw (entry_of-put section id j _, mapping, same)
        (get-set_entry other name value entry
          ∙ ap (λ o. if name == other then value else o) (read_entry ((eq_iff id j).0 same)))
  | inr not_same ↦ rw (entry_of-put section id j _, not_same) refl
]
  where
    read_entry : id ≡ j → get other entry ≡ entry_option (entry_of section j) other
    read_entry e = rw (← e, mapping) (unfold entry_option in refl)

spread_obj : (fs : Fields) → spread (some (Json.obj fs)) ≡ fs
unfolding spread
spread_obj fs = refl

-- `withTlsSection` writes `checks.tls` (or removes it, for an empty section), keeps the other entries
-- of `checks`, and keeps every other key of the profile.
with_tls_section_lem :
    (content section : Fields) (key : Text)
    → (get key (spread (get (str "checks") (with_tls_section content section))) ≡ (
        if str "tls" == key
        then if is_end section then none else some (Json.obj section)
        else get key (spread (get (str "checks") content))))
      × (get key (with_tls_section content section) ≡ (
          if str "checks" == key
          then get (str "checks") (with_tls_section content section)
          else get key content))
unfolding with_tls_section
with_tls_section_lem content section key = (
  rw (get-put (str "checks") (str "checks") _ content, eq_refl (str "checks"), spread_obj _)
      (on_section section),
  on_key,
)
  where
    on_key : get key (with_tls_section content section) ≡ (
        if str "checks" == key
        then get (str "checks") (with_tls_section content section)
        else get key content)
    on_key = elim (Bool-cases (str "checks" == key)) [
      | inl same ↦
          rw same (ap (λ k. get k (with_tls_section content section)) (sym ((eq_iff _ key).0 same)))
      | inr other ↦
          rw other
            (unfold with_tls_section in rw (get-put key (str "checks") _ content, other) refl)
    ]

    on_section :
        (section : Fields)
        → get key (
            if is_end section
            then remove (str "tls") (spread (get (str "checks") content))
            else put (str "tls") (Json.obj section) (spread (get (str "checks") content)))
          ≡ (if str "tls" == key
              then if is_end section then none else some (Json.obj section)
              else get key (spread (get (str "checks") content)))
    on_section end = get-remove key (str "tls") (spread (get (str "checks") content))
    on_section (field k v fs) =
        get-put key (str "tls") (Json.obj (field k v fs)) (spread (get (str "checks") content))

entry_mapping-enabled :
    (current : Option Json)
    → is_true (get (str "enabled") (entry_mapping current)) ≡ entry_enabled current
unfolding entry_mapping entry_enabled get ◌==◌
entry_mapping-enabled none = refl
entry_mapping-enabled (some Json.null) = refl
entry_mapping-enabled (some (Json.bool b)) = refl
entry_mapping-enabled (some (Json.num n)) = refl
entry_mapping-enabled (some (Json.text s)) = refl
entry_mapping-enabled (some (Json.ports ns)) = is_true-index_fields (str "enabled") 0 ns
entry_mapping-enabled (some (Json.obj fs)) = refl

-- `setOption`, of an option other than `enabled`, leaves every check enabled or disabled as it was.
is_enabled-set_option :
    (section : Option Fields) (id name j : Text) (value : Option Json)
    → (name == str "enabled") ≡ false
    → is_enabled (some (set_option section id name value)) j ≡ is_enabled section j
unfolding is_enabled set_option
is_enabled-set_option section id name j value other = elim (Bool-cases (id == j)) [
  | inl same ↦
      rw (entry_of-put section id j _, same)
        (written ∙ ap (λ k. entry_enabled (entry_of section k)) ((eq_iff id j).0 same))
  | inr not_same ↦ rw (entry_of-put section id j _, not_same) refl
]
  where
    written :
        entry_enabled (some (Json.obj (set_entry name value (entry_mapping (entry_of section id)))))
        ≡ entry_enabled (entry_of section id)
    written =
        unfold entry_enabled in
        rw (get-set_entry (str "enabled") name value (entry_mapping (entry_of section id)), other)
          (entry_mapping-enabled (entry_of section id))
