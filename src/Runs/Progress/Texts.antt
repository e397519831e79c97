-- ===== src/Runs/Progress/Texts.antt =====
-- The descriptions of the steps, as `t` makes them from the dictionaries.
use scan_tls.Common.{
  Text, str, ℕ, zero, suc, ◌+◌, ◌/◌, ◌%◌, ◌<◌, Bool, true, false, List, [], ◌∷◌, ◌++◌, map, some,
  ◌≡◌, ◌≢◌, refl, All, All-append, lookup, mem_text, ◌==◌, eq_iff, join, ltb, eqb, ◌&&◌, Bool-cases,
  inl, inr, if◌then◌else◌, arith,
}
use scan_tls.Value.{show_digits, show_nat}
use scan_tls.I18n.{Language, fr, en, de}
use scan_tls.I18n.Fr.{fr_texts, fr_1, fr_2, fr_3, fr_4, fr_5, fr_6, fr_7, fr_8, fr_9, fr_10}
use scan_tls.I18n.De.{de_texts, de_1, de_2, de_3, de_4, de_5, de_6, de_7, de_8, de_9, de_10}
use scan_tls.I18n.Segments.{Avoids}
use scan_tls.I18n.En.{en_texts, en_1, en_2, en_3, en_4, en_5, en_6, en_7, en_8, en_9, en_10}
use scan_tls.I18n.Dictionaries.{translate, text_of, dictionary, segments_of, names_of}
use scan_tls.I18n.Dictionaries.Agreement.{avoids, all_in, secret_hint}
use scan_tls.I18n.Dictionaries.Translate.{IsPlain, avoids_sound, translate-Avoids}
use scan_tls.Runs.Progress.{RunPlan, part_if, store_names, tls_parts, what}

-- A text that `t` puts in a placeholder as it is.
abbrev pub IsLiteral : Text → Type 0
IsLiteral s = Avoids b'{' s × Avoids b'$' s

pub record IsLiteralPlan (upper : Text → Text) (plan : RunPlan) : Type 0 where
  pub ports : All IsLiteral plan.ports
  pub private_stores : All IsLiteral plan.private_stores
  pub policies : All IsLiteral plan.policies
  pub formats : All IsLiteral (map upper plan.formats)

join-Avoids :
    (c : ℕ) (sep : Text) (ss : List Text)
    → Avoids c sep
    → All (Avoids c) ss
    → Avoids c (join sep ss)
unfolding join
join-Avoids c sep [] h k = tt
join-Avoids c sep (s ∷ []) h (p, k) = p
join-Avoids c sep (s ∷ t ∷ ts) h (p, k) =
    All-append _ s (sep ++ join sep (t ∷ ts)) p
      (All-append _ sep (join sep (t ∷ ts)) h (join-Avoids c sep (t ∷ ts) h k))

-- no digit
abbrev IsNoDigit : ℕ → Type 0
IsNoDigit c = (k : ℕ) → k < 10 → eqb (b'0' + k) c ≡ false

brace-IsNoDigit : IsNoDigit b'{'
brace-IsNoDigit k h = ground arith

dollar-IsNoDigit : IsNoDigit b'$'
dollar-IsNoDigit k h = ground arith

show_digits-Avoids :
    (c fuel n : ℕ) (acc : Text) → IsNoDigit c → Avoids c acc → Avoids c (show_digits fuel n acc)
unfolding show_digits
show_digits-Avoids c zero n acc h k = k
show_digits-Avoids c (suc fuel) n acc h k = elim (Bool-cases (ltb n 10)) [
  | inl small ↦ rw small (h n (ground arith), k)
  | inr large ↦
      rw large
        (show_digits-Avoids c fuel (n / 10) ((b'0' + n % 10) ∷ acc) h (h (n % 10) (omega arith), k))
]

show_nat-IsLiteral : (n : ℕ) → IsLiteral (show_nat n)
unfolding show_nat
show_nat-IsLiteral n = (
  show_digits-Avoids b'{' (suc n) n [] brace-IsNoDigit tt,
  show_digits-Avoids b'$' (suc n) n [] dollar-IsNoDigit tt,
)

All-braces : (ss : List Text) → All IsLiteral ss → All (Avoids b'{') ss
All-braces [] h = tt
All-braces (s ∷ ss) (p, h) = (p.0, All-braces ss h)

All-dollars : (ss : List Text) → All IsLiteral ss → All (Avoids b'$') ss
All-dollars [] h = tt
All-dollars (s ∷ ss) (p, h) = (p.1, All-dollars ss h)

join-IsLiteral :
    (sep : Text) (ss : List Text) → IsLiteral sep → All IsLiteral ss → IsLiteral (join sep ss)
join-IsLiteral sep ss (o, d) h =
    (join-Avoids b'{' sep ss o (All-braces ss h), join-Avoids b'$' sep ss d (All-dollars ss h))

plain : (name value : Text) → Avoids b'}' name → IsLiteral value → IsPlain (name, value)
plain name value n (o, d) = (n, o, d)

-- both branches of a test
either :
    (test : Bool) (s t : Text) → Avoids b'{' s → Avoids b'{' t → Avoids b'{' (if test then s else t)
either true s t p q = p
either false s t p q = q

part_if-All :
    (P : Text → Type 0) (test : Bool) (s : Text) (ss : List Text)
    → P s
    → All P ss
    → All P (part_if test s ++ ss)
part_if-All P true s ss p h = (p, h)
part_if-All P false s ss p h = h

-- The texts of the steps in the English dictionary.
abbrev known_texts : List (Text × Text)
known_texts =
    (str "prog.what.starting", str "{n} target(s) in scope")
    ∷ (str "prog.what.pqc_preflight", str "Checks that the post-quantum groups can be tested")
    ∷ (str "prog.what.discovery", str "Open ports ({ports}) on {n} target(s)")
    ∷ (str "prog.what.tls", str "TLS versions and cipher suites")
    ∷ (str "prog.what.cert", str "certificate (validity, key, signature)")
    ∷ (str "prog.what.trust", str "chain trust: {stores}")
    ∷ (str "prog.what.publicStore", str "public authorities")
    ∷ (str "prog.what.revocation", str "revocation (OCSP/CRL)")
    ∷ (str "prog.what.tlsChecks", str "{n} complementary check(s)")
    ∷ (str "prog.what.grading", str "Against {policies}")
    ∷ (str "prog.what.reporting", str "{formats}")
    ∷ []

IsKnownText : Text × Text → Type 0
IsKnownText (key, s) = (lookup key en_texts ≡ some s) × ((key == secret_hint) ≡ false)

known_texts_lem : All IsKnownText known_texts
unfolding IsKnownText lookup ◌==◌ en_texts en_1 en_2 en_3 en_4 en_5 en_6 en_7 en_8 en_9 en_10
known_texts_lem = (
  (refl, refl),
  (
    (refl, refl),
    (
      (refl, refl),
      (
        (refl, refl),
        (
          (refl, refl),
          (
            (refl, refl),
            ((refl, refl), ((refl, refl), ((refl, refl), ((refl, refl), ((refl, refl), tt))))),
          ),
        ),
      ),
    ),
  ),
)

-- A known text with a literal value for each of its names.
text_Avoids :
    (l : Language) (key s : Text) (vars : List (Text × Text))
    → IsKnownText (key, s)
    → all_in (names_of (segments_of s)) (map (λ v. v.0) vars) ≡ true
    → All IsPlain vars
    → Avoids b'{' (translate l key vars)
unfolding IsKnownText
text_Avoids l key s vars (known, other) given plain =
    translate-Avoids l key s vars known different given plain
  where
    different : key ≢ secret_hint
    different e = let same : (key == secret_hint) ≡ true = (eq_iff key secret_hint).1 e in cc

public_store-avoids :
    (l : Language) → avoids b'$' (translate l (str "prog.what.publicStore") []) ≡ true
unfolding avoids translate text_of dictionary lookup ◌==◌ en_texts en_1 en_2 en_3 en_4 en_5 en_6
    en_7 en_8 en_9 en_10 fr_texts fr_1 fr_2 fr_3 fr_4 fr_5 fr_6 fr_7 fr_8 fr_9 fr_10 de_texts de_1
    de_2 de_3 de_4 de_5 de_6 de_7 de_8 de_9 de_10
public_store-avoids en = refl
public_store-avoids fr = refl
public_store-avoids de = refl

module _ (l : Language) where
  public_store-IsLiteral : IsLiteral (translate l (str "prog.what.publicStore") [])
  unfolding all_in names_of segments_of
  public_store-IsLiteral = (
    text_Avoids l _ _ [] known_texts_lem.1.1.1.1.1.1.0 refl tt,
    avoids_sound b'$' _ (public_store-avoids l),
  )

  stores-IsLiteral :
      (plan : RunPlan) → All IsLiteral plan.private_stores → IsLiteral (store_names l plan)
  unfolding store_names
  stores-IsLiteral plan h =
      join-IsLiteral (str ", ") _ (ground arith)
        (part_if-All IsLiteral plan.public_store _ plan.private_stores public_store-IsLiteral h)

  tls_parts-Avoids :
      (plan : RunPlan) → All IsLiteral plan.private_stores → All (Avoids b'{') (tls_parts l plan)
  unfolding tls_parts all_in names_of segments_of mem_text ◌==◌
  tls_parts-Avoids plan h = (
    text_Avoids l _ _ [] known_texts_lem.1.1.1.0 refl tt,
    part_if-All (Avoids b'{') plan.certificate _ _
        (text_Avoids l _ _ [] known_texts_lem.1.1.1.1.0 refl tt)
        (part_if-All (Avoids b'{') (plan.certificate && plan.trust) _ _
          (text_Avoids l _ _ ((str "stores", store_names l plan) ∷ []) known_texts_lem.1.1.1.1.1.0
            refl (plain (str "stores") _ (ground arith) (stores-IsLiteral plan h), tt))
          (part_if-All (Avoids b'{') (plan.certificate && plan.revocation) _ _
            (text_Avoids l _ _ [] known_texts_lem.1.1.1.1.1.1.1.0 refl tt)
            (checks_part _ (
              text_Avoids l _ _ ((str "n", show_nat plan.tls_checks) ∷ [])
                known_texts_lem.1.1.1.1.1.1.1.1.0 refl
                (plain (str "n") _ (ground arith) (show_nat-IsLiteral plan.tls_checks), tt))))),
  )
    where
      checks_part :
          (s : Text) → Avoids b'{' s → All (Avoids b'{') (part_if (ltb 0 plan.tls_checks) s)
      checks_part s h = elim (Bool-cases (ltb 0 plan.tls_checks)) [
        | inl some_checks ↦ rw some_checks (h, tt)
        | inr no_checks ↦ rw no_checks tt
      ]

-- What the panel says of a step has no placeholder left, in each language, if the plan's own texts are
-- literal.
pub what-Avoids :
    (upper : Text → Text) (l : Language) (plan : RunPlan) (step : Text)
    → IsLiteralPlan upper plan
    → Avoids b'{' (what upper l (some plan) step)
unfolding what all_in names_of segments_of mem_text ◌==◌
what-Avoids upper l plan step h =
    either (step == str "starting") _ _
      (text_Avoids l _ _ ((str "n", show_nat plan.targets) ∷ []) known_texts_lem.0 refl
        (plain (str "n") _ (ground arith) (show_nat-IsLiteral plan.targets), tt))
      (either (step == str "pqc_preflight") _ _ (text_Avoids l _ _ [] known_texts_lem.1.0 refl tt) (
        either (step == str "discovery") _ _
          (text_Avoids l _ _
            ((str "ports", join (str " · ") plan.ports) ∷ (str "n", show_nat plan.targets) ∷ [])
            known_texts_lem.1.1.0 refl
            (
              plain (str "ports") _ (ground arith)
                  (join-IsLiteral (str " · ") plan.ports (ground arith) h.ports),
              (plain (str "n") _ (ground arith) (show_nat-IsLiteral plan.targets), tt),
            ))
          (either (step == str "tls_scan") _ _
            (join-Avoids b'{' (str " · ") (tls_parts l plan) (ground arith)
              (tls_parts-Avoids l plan h.private_stores))
            (either (step == str "grading") _ _
              (text_Avoids l _ _ ((str "policies", join (str ", ") plan.policies) ∷ [])
                known_texts_lem.1.1.1.1.1.1.1.1.1.0 refl
                (
                  plain (str "policies") _ (ground arith)
                      (join-IsLiteral (str ", ") plan.policies (ground arith) h.policies),
                  tt,
                ))
              (text_Avoids l _ _ ((str "formats", join (str ", ") (map upper plan.formats)) ∷ [])
                known_texts_lem.1.1.1.1.1.1.1.1.1.1.0 refl
                (
                  plain (str "formats") _ (ground arith)
                      (join-IsLiteral (str ", ") (map upper plan.formats) (ground arith) h.formats),
                  tt,
                ))))))
