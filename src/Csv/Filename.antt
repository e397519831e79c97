-- ===== src/Csv/Filename.antt =====
-- What `safeFilename` gives as the name of the downloaded file.
use mathlib.Core.List.{reverse, reverse-cons, reverse-append, reverse-reverse}
use scan_tls.Common.{
  Text, ◌≡◌, ◌≢◌, refl, ap, inl, inr, Bool, true, false, [], ◌∷◌, ◌++◌, eqb, All, All-append,
  Bool-cases, arith, if◌then◌else◌, ℕ,
}
use scan_tls.Csv.{
  is_file_char, squash, drop_underscores, trim_underscores, or_default, safe_filename,
}

abbrev pub starts_with_underscore : Text → Bool
starts_with_underscore [] = false
starts_with_underscore (c ∷ s) = eqb c b'_'

abbrev pub IsFileChar : ℕ → Type 0
IsFileChar c = is_file_char c ≡ true

-- A name of letters, digits, `.`, `_` and `-` with an underscore at neither end.
pub record IsFileName (s : Text) : Type 0 where
  pub chars : All IsFileChar s
  pub nonempty : s ≢ []
  pub first : starts_with_underscore s ≡ false
  pub last : starts_with_underscore (reverse s) ≡ false

All-underscore :
    (in_run : Bool) (s : Text) → All IsFileChar s → All IsFileChar (if in_run then s else b'_' ∷ s)
unfolding is_file_char
All-underscore true s h = h
All-underscore false s h = (refl, h)

squash-IsFileChar : (in_run : Bool) (s : Text) → All IsFileChar (squash in_run s)
unfolding squash
squash-IsFileChar in_run [] = tt
squash-IsFileChar in_run (c ∷ s) = elim (Bool-cases (is_file_char c)) [
  | inl safe ↦ rw safe (safe, squash-IsFileChar false s)
  | inr unsafe ↦ rw unsafe (All-underscore in_run (squash true s) (squash-IsFileChar true s))
]

squash-eq_self : (s : Text) → All IsFileChar s → squash false s ≡ s
unfolding squash
squash-eq_self [] h = refl
squash-eq_self (c ∷ s) (p, h) = rw p (ap (◌∷◌ c) (squash-eq_self s h))

All-drop_underscores : (s : Text) → All IsFileChar s → All IsFileChar (drop_underscores s)
unfolding drop_underscores
All-drop_underscores [] h = tt
All-drop_underscores (c ∷ s) (p, h) = ground (arith, All-drop_underscores s h)

All-reverse : (s : Text) → All IsFileChar s → All IsFileChar (reverse s)
All-reverse [] h = tt
All-reverse (c ∷ s) (p, h) =
    rw (reverse-cons c s) (All-append IsFileChar (reverse s) (c ∷ []) (All-reverse s h) (p, tt))

drop_underscores-first : (s : Text) → starts_with_underscore (drop_underscores s) ≡ false
unfolding drop_underscores
drop_underscores-first [] = refl
drop_underscores-first (c ∷ s) = ground (arith, drop_underscores-first s)

drop_underscores-append :
    (s : Text) (c : ℕ)
    → eqb c b'_' ≡ false
    → drop_underscores (s ++ c ∷ []) ≡ drop_underscores s ++ c ∷ []
unfolding drop_underscores
drop_underscores-append [] c h = rw h
drop_underscores-append (d ∷ s) c h = ground (arith, drop_underscores-append s c h)

trim_end : Text → Text
trim_end s = reverse (drop_underscores (reverse s))

trim_end-cons : (c : ℕ) (s : Text) → eqb c b'_' ≡ false → trim_end (c ∷ s) ≡ c ∷ trim_end s
unfolding trim_end
trim_end-cons c s h =
    rw (reverse-cons c s, drop_underscores-append (reverse s) c h)
      (reverse-append (drop_underscores (reverse s)) (c ∷ []))

trim_end-first :
    (s : Text) → starts_with_underscore s ≡ false → starts_with_underscore (trim_end s) ≡ false
trim_end-first [] h = unfold trim_end drop_underscores in refl
trim_end-first (c ∷ s) h = rw (trim_end-cons c s h) h

trim_underscores_ends :
    (s : Text)
    → (starts_with_underscore (trim_underscores s) ≡ false)
      × (starts_with_underscore (reverse (trim_underscores s)) ≡ false)
unfolding trim_underscores trim_end
trim_underscores_ends s = (
  trim_end-first (drop_underscores s) (drop_underscores-first s),
  rw (reverse-reverse (drop_underscores (reverse (drop_underscores s))))
      (drop_underscores-first (reverse (drop_underscores s))),
)

or_default-IsFileName :
    (s : Text)
    → All IsFileChar s
    → starts_with_underscore s ≡ false
    → starts_with_underscore (reverse s) ≡ false
    → IsFileName (or_default s)
or_default-IsFileName [] h f l = record {
  chars = unfold is_file_char in grind arith;
  nonempty = λ e. cc;
  first = refl;
  last = refl;
}
or_default-IsFileName (c ∷ s) h f l = record { chars = h; nonempty = λ e. cc; first = f; last = l }

-- Whatever the report is called, the file name is not empty, has only letters, digits, `.`, `_`
-- and `-`, and neither begins nor ends with an underscore.
pub safe_filename-IsFileName : (value : Text) → IsFileName (safe_filename value)
unfolding safe_filename
safe_filename-IsFileName value =
    let squashed = squash false (or_default value) in
    let (f, l) = trim_underscores_ends squashed in
    or_default-IsFileName (trim_underscores squashed)
      (All-reverse _ (
        All-drop_underscores _
          (All-reverse _ (All-drop_underscores _ (squash-IsFileChar false (or_default value))))))
      f l

or_default-eq_self : (s : Text) → s ≢ [] → or_default s ≡ s
or_default-eq_self [] h = absurd (h refl)
or_default-eq_self (c ∷ s) h = refl

drop_underscores-eq_self : (s : Text) → starts_with_underscore s ≡ false → drop_underscores s ≡ s
unfolding drop_underscores
drop_underscores-eq_self [] h = refl
drop_underscores-eq_self (c ∷ s) h = rw h

trim_underscores-eq_self :
    (s : Text)
    → starts_with_underscore s ≡ false
    → starts_with_underscore (reverse s) ≡ false
    → trim_underscores s ≡ s
unfolding trim_underscores
trim_underscores-eq_self s f l =
    rw (drop_underscores-eq_self s f, drop_underscores-eq_self (reverse s) l) (reverse-reverse s)

-- A name that is already such a file name is kept as it is.
safe_filename-eq_self : (s : Text) → IsFileName s → safe_filename s ≡ s
unfolding safe_filename
safe_filename-eq_self s n =
    rw
      (
        or_default-eq_self s n.nonempty,
        squash-eq_self s n.chars,
        trim_underscores-eq_self s n.first n.last,
      )
      (or_default-eq_self s n.nonempty)
