-- ===== src/Csv/Roundtrip.antt =====
-- Reading the CSV download back.
use mathlib.Core.List.{append_assoc, append-nil}
use scan_tls.Common.{
  Text, ◌≡◌, ◌≢◌, ◌⊎◌, refl, ap, ◌∙◌, sym, inl, inr, false, List, [], ◌∷◌, ◌++◌, map, any, join,
  str, ◌==◌, All, Bool-cases, arith, ℕ,
}
use scan_tls.Value.{Value, normalize}
use scan_tls.Csv.{
  quote, comma, newline, is_special, double_quotes, csv_escape, csv_cell, csv_row, csv_content,
  csv_headers,
}
use scan_tls.Csv.Reader.{before, plain, quoted, behind, read, records}

module _ (fields : List Text) (s : Text) where
  read-plain :
      (field t : Text)
      → any is_special t ≡ false
      → read plain field fields (t ++ s) ≡ read plain (field ++ t) fields s
  unfolding read
  read-plain field [] h = ap (λ f. read plain f fields s) (sym (append-nil field))
  read-plain field (c ∷ t) h =
      ground (arith, read-plain (field ++ c ∷ []) t, append_assoc field (c ∷ []) t)

  read-quoted :
      (field t : Text)
      → read quoted field fields (double_quotes t ++ quote ∷ s) ≡ read behind (field ++ t) fields s
  unfolding read double_quotes
  read-quoted field [] = ap (λ f. read behind f fields s) (sym (append-nil field))
  read-quoted field (c ∷ t) =
      ground (arith, read-quoted (field ++ c ∷ []) t, append_assoc field (c ∷ []) t)

-- A field ends at a comma or a line feed.
abbrev IsEnd : ℕ → Type 0
IsEnd d = (d ≡ comma) ⊎ (d ≡ newline)

module _ (fields : List Text) (d : ℕ) (s : Text) (ends : IsEnd d) where
  read-before_end : read before [] fields (d ∷ s) ≡ read behind [] fields (d ∷ s)
  unfolding read
  read-before_end = ground arith

  read-plain_end : (t : Text) → read plain t fields (d ∷ s) ≡ read behind t fields (d ∷ s)
  unfolding read
  read-plain_end t = ground arith

  read-special :
      (t : Text)
      → read before [] fields (quote ∷ ((double_quotes t ++ quote ∷ []) ++ d ∷ s))
        ≡ read behind t fields (d ∷ s)
  unfolding read
  read-special t =
      rw (append_assoc (double_quotes t) (quote ∷ []) (d ∷ s)) (read-quoted fields (d ∷ s) [] t)

  read-unquoted :
      (t : Text)
      → any is_special t ≡ false
      → read before [] fields (t ++ d ∷ s) ≡ read behind t fields (d ∷ s)
  read-unquoted [] h = read-before_end
  read-unquoted (c ∷ t) h = read-first c t h ∙ read-plain_end (c ∷ t)
    where
      read-first :
          (c : ℕ) (t : Text)
          → any is_special (c ∷ t) ≡ false
          → read before [] fields (c ∷ t ++ d ∷ s) ≡ read plain (c ∷ t) fields (d ∷ s)
      read-first c t h = unfold read in ground (arith, read-plain fields (d ∷ s) (c ∷ []) t)

  read-escaped :
      (t : Text) → read before [] fields (csv_escape t ++ d ∷ s) ≡ read behind t fields (d ∷ s)
  unfolding csv_escape
  read-escaped t = elim (Bool-cases (any is_special t)) [
    | inl special ↦ rw special (read-special t)
    | inr plain_ ↦ rw plain_ (read-unquoted t plain_)
  ]

read-cell_comma :
    (fields : List Text) (s : Text) (v : Value)
    → read before [] fields (csv_cell v ++ comma ∷ s)
      ≡ read before [] (fields ++ normalize v ∷ []) s
unfolding read csv_cell
read-cell_comma fields s v = read-escaped fields comma s (inl refl) (normalize v)

read-cell_newline :
    (fields : List Text) (s : Text) (v : Value)
    → read before [] fields (csv_cell v ++ newline ∷ s)
      ≡ (fields ++ normalize v ∷ []) ∷ read before [] [] s
unfolding read csv_cell
read-cell_newline fields s v = read-escaped fields newline s (inr refl) (normalize v)

read-row :
    (fields : List Text) (s : Text) (v : Value) (vs : List Value)
    → read before [] fields (csv_row (v ∷ vs) ++ newline ∷ s)
      ≡ (fields ++ map normalize (v ∷ vs)) ∷ read before [] [] s
unfolding csv_row join
read-row fields s v [] = read-cell_newline fields s v
read-row fields s v (w ∷ vs) =
    rw (append_assoc (csv_cell v) (comma ∷ csv_row (w ∷ vs)) (newline ∷ s)) (
      read-cell_comma fields (csv_row (w ∷ vs) ++ newline ∷ s) v
      ∙ read-row (fields ++ normalize v ∷ []) s w vs
      ∙ ap (λ r. r ∷ read before [] [] s)
          (append_assoc fields (normalize v ∷ []) (map normalize (w ∷ vs))))

read-rows :
    (row : List Value) (rows : List (List Value))
    → All (λ r. r ≢ []) (row ∷ rows)
    → read before [] [] (join (newline ∷ []) (map csv_row (row ∷ rows)) ++ newline ∷ [])
      ≡ map (map normalize) (row ∷ rows)
unfolding join read
read-rows [] rows (ne, h) = absurd (ne refl)
read-rows (v ∷ vs) [] h = read-row [] [] v vs
read-rows (v ∷ vs) (row ∷ rows) (ne, h) =
    rw
      (append_assoc (csv_row (v ∷ vs)) (newline ∷ join (newline ∷ []) (map csv_row (row ∷ rows)))
        (newline ∷ []))
      (read-row [] (join (newline ∷ []) (map csv_row (row ∷ rows)) ++ newline ∷ []) v vs
        ∙ ap (◌∷◌ (map normalize (v ∷ vs))) (read-rows row rows h))

map-normalize-text :
    (ss : List Text) → All (λ s. s ≢ []) ss → map normalize (map Value.text ss) ≡ ss
unfolding normalize
map-normalize-text [] h = refl
map-normalize-text ([] ∷ ss) (ne, h) = absurd (ne refl)
map-normalize-text ((c ∷ s) ∷ ss) (ne, h) = ap (◌∷◌ (c ∷ s)) (map-normalize-text ss h)

csv_headers-nonempty : (p : Text) → All (λ s. s ≢ []) (csv_headers p)
unfolding csv_headers
csv_headers-nonempty p = elim (Bool-cases (p == str "pqc")) [
  | inl pqc ↦ rw pqc (grind arith)
  | inr classical ↦ rw classical (grind arith)
]

csv_headers-cells : (p : Text) → map Value.text (csv_headers p) ≢ []
unfolding csv_headers
csv_headers-cells p = λ e. cc

-- Reading the downloaded file as CSV gives the header row and then exactly the raw rows, each cell
-- as the page shows it (`normalize`), for raw rows that have a cell, whatever quotes, commas and
-- line breaks the cells hold.
pub records-csv_content :
    (crypto_profile : Text) (raw_results : List (List Value))
    → All (λ r. r ≢ []) raw_results
    → records (csv_content crypto_profile raw_results)
      ≡ csv_headers crypto_profile ∷ map (map normalize) raw_results
unfolding records csv_content
records-csv_content p raw h =
    read-rows (map Value.text (csv_headers p)) raw (csv_headers-cells p, h)
    ∙ ap (λ r. r ∷ map (map normalize) raw)
        (map-normalize-text (csv_headers p) (csv_headers-nonempty p))
