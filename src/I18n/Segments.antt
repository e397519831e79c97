-- ===== src/I18n/Segments.antt =====
-- An independent description of `t`'s loop: a text is a row of words and placeholders, and filling puts
-- a value for the first placeholder of its name.
use mathlib.Core.List.{append_assoc, append-nil}
use scan_tls.Common.{
  Text, ℕ, true, false, List, [], ◌∷◌, ◌++◌, All, ◌≡◌, refl, sym, ap, All-append, ◌∙◌, eqb, ◌==◌,
  eq_iff, arith, if◌then◌else◌, length, Bool-cases, inl, inr, eq_refl,
}
use scan_tls.Hosts.{starts_with}
use scan_tls.I18n.{drop, expand, replace_from, placeholder}

pub data Segment : Type 0 where
  words : Text → Segment
  hole : Text → Segment

unfoldable pub unparse : List Segment → Text
unparse [] = []
unparse (words s ∷ ss) = s ++ unparse ss
unparse (hole n ∷ ss) = placeholder n ++ unparse ss

-- a value for the first placeholder of the name
unfoldable pub fill_first : Text → Text → List Segment → List Segment
unfolding ◌==◌
fill_first name value [] = []
fill_first name value (words s ∷ ss) = words s ∷ fill_first name value ss
fill_first name value (hole n ∷ ss) =
    if n == name then words value ∷ ss else hole n ∷ fill_first name value ss

-- without the code unit
abbrev pub Avoids : ℕ → Text → Type 0
Avoids c s = All (λ d. eqb d c ≡ false) s

-- words without braces that open, names without braces
abbrev pub IsClean : Segment → Type 0
IsClean (words s) = Avoids b'{' s
IsClean (hole n) = Avoids b'{' n × Avoids b'}' n

expand-plain :
    (matched before after value : Text)
    → Avoids b'$' value
    → expand matched before after value ≡ value
unfolding expand
expand-plain matched before after [] h = refl
expand-plain matched before after (c ∷ []) h = refl
expand-plain matched before after (c ∷ d ∷ s) (h, hs) =
    rw (h, expand) (ap (◌∷◌ c) (expand-plain matched before after (d ∷ s) hs))

replace_from-no :
    (before pattern value : Text) (c : ℕ) (s : Text)
    → starts_with (c ∷ s) pattern ≡ false
    → replace_from before pattern value (c ∷ s) ≡ replace_from (before ++ c ∷ []) pattern value s
unfolding replace_from
replace_from-no before pattern value c s h = rw (h, replace_from) refl

replace_from-yes :
    (before pattern value : Text) (c : ℕ) (s : Text)
    → starts_with (c ∷ s) pattern ≡ true
    → Avoids b'$' value
    → replace_from before pattern value (c ∷ s) ≡ before ++ (value ++ drop (length pattern) (c ∷ s))
unfolding replace_from
replace_from-yes before pattern value c s h v =
    rw (h, replace_from)
      (ap (λ t. before ++ (t ++ drop (length pattern) (c ∷ s))) (expand-plain _ _ _ value v))

starts_with-other :
    (c : ℕ) (s name : Text) → eqb c b'{' ≡ false → starts_with (c ∷ s) (placeholder name) ≡ false
unfolding starts_with
starts_with-other c s name h = rw h refl

replace_from-skip :
    (before name value s rest : Text)
    → Avoids b'{' s
    → replace_from before (placeholder name) value (s ++ rest)
      ≡ replace_from (before ++ s) (placeholder name) value rest
replace_from-skip before name value [] rest h =
    ap (λ b. replace_from b (placeholder name) value rest) (sym (append-nil before))
replace_from-skip before name value (c ∷ s) rest (h, hs) =
    replace_from-no before (placeholder name) value c (s ++ rest)
      (starts_with-other c (s ++ rest) name h)
    ∙ (replace_from-skip (before ++ c ∷ []) name value s rest hs
        ∙ ap (λ b. replace_from b (placeholder name) value rest) (append_assoc before (c ∷ []) s))

-- A name in braces begins with another name in braces exactly if they are the same.
starts_with-name :
    (m n rest : Text)
    → Avoids b'}' m
    → Avoids b'}' n
    → starts_with (m ++ b'}' ∷ rest) (n ++ b'}' ∷ []) ≡ (m == n)
unfolding starts_with ◌==◌
starts_with-name [] [] rest h k = refl
starts_with-name [] (b ∷ n) rest h (k, ks) = ground arith
starts_with-name (a ∷ m) [] rest (h, hs) k = ground arith
starts_with-name (a ∷ m) (b ∷ n) rest (h, hs) (k, ks) =
    ground (arith, starts_with-name m n rest hs ks)

starts_with-placeholder :
    (m n rest : Text)
    → Avoids b'}' m
    → Avoids b'}' n
    → starts_with (placeholder m ++ rest) (placeholder n) ≡ (m == n)
unfolding starts_with
starts_with-placeholder m n rest h k =
    ap (λ t. starts_with t (n ++ b'}' ∷ [])) (append_assoc m (b'}' ∷ []) rest)
    ∙ starts_with-name m n rest h k

drop-name : (m rest : Text) → drop (length m) (m ++ rest) ≡ rest
drop-name [] rest = refl
drop-name (c ∷ m) rest = drop-name m rest

-- A placeholder of the name is filled.
replace_from-hit :
    (before name value rest : Text)
    → Avoids b'}' name
    → Avoids b'$' value
    → replace_from before (placeholder name) value (placeholder name ++ rest)
      ≡ before ++ (value ++ rest)
replace_from-hit before name value rest h v =
    replace_from-yes before (placeholder name) value b'{' ((name ++ b'}' ∷ []) ++ rest)
      (starts_with-placeholder name name rest h h ∙ eq_refl name) v
    ∙ ap (λ t. before ++ (value ++ t)) (drop-name (placeholder name) rest)

-- Another placeholder is passed over.
replace_from-miss :
    (before name value m rest : Text)
    → Avoids b'}' name
    → Avoids b'{' m × Avoids b'}' m
    → (m == name) ≡ false
    → replace_from before (placeholder name) value (placeholder m ++ rest)
      ≡ replace_from (before ++ placeholder m) (placeholder name) value rest
replace_from-miss before name value m rest h (o, c) ne =
    replace_from-no before (placeholder name) value b'{' ((m ++ b'}' ∷ []) ++ rest)
      (starts_with-placeholder m name rest c h ∙ ne)
    ∙ (replace_from-skip (before ++ b'{' ∷ []) name value (m ++ b'}' ∷ []) rest
          (All-append _ m (b'}' ∷ []) o (refl, tt))
        ∙ ap (λ b. replace_from b (placeholder name) value rest)
            (append_assoc before (b'{' ∷ []) (m ++ b'}' ∷ [])))

-- `replace` fills the first placeholder of the name.
pub replace_from-unparse :
    (before name value : Text) (ss : List Segment)
    → Avoids b'}' name
    → Avoids b'$' value
    → All IsClean ss
    → replace_from before (placeholder name) value (unparse ss)
      ≡ before ++ unparse (fill_first name value ss)
unfolding unparse fill_first
replace_from-unparse before name value [] h v c = unfold replace_from in sym (append-nil before)
replace_from-unparse before name value (words s ∷ ss) h v (c, cs) =
    replace_from-skip before name value s (unparse ss) c
    ∙ (replace_from-unparse (before ++ s) name value ss h v cs
        ∙ append_assoc before s (unparse (fill_first name value ss)))
replace_from-unparse before name value (hole n ∷ ss) h v (c, cs) = elim (Bool-cases (n == name)) [
  | inl same ↦
      rw (same, fill_first)
        (ap (λ k. replace_from before (placeholder name) value (placeholder k ++ unparse ss))
            ((eq_iff n name).0 same)
          ∙ replace_from-hit before name value (unparse ss) h v)
  | inr other ↦
      rw (other, fill_first)
        (replace_from-miss before name value n (unparse ss) h c other
          ∙ (replace_from-unparse (before ++ placeholder n) name value ss h v cs
              ∙ append_assoc before (placeholder n) (unparse (fill_first name value ss))))
]
