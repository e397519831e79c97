-- ===== src/Csv/Examples.antt =====
-- Runs of the CSV download, and its theorems at concrete inputs.
use scan_tls.Common.{Text, str, ◌≡◌, refl, true, List, [], ◌∷◌, map, join}
use scan_tls.Value.{Value, normalize}
use scan_tls.Csv.{
  csv_headers, csv_cell, csv_escape, double_quotes, csv_row, csv_content, is_file_char,
  safe_filename,
}
use scan_tls.Csv.Reader.{records}
use scan_tls.Csv.Roundtrip.{records-csv_content}
use scan_tls.Csv.Filename.{IsFileName, safe_filename-IsFileName}

abbrev quoted_reason : Text
quoted_reason = str "bad \"CN\", expired"

abbrev rows : List (List Value)
rows =
    (Value.text (str "10.0.0.1") ∷ Value.int true 12 ∷ Value.text quoted_reason ∷ [])
    ∷ (Value.null ∷ Value.text [] ∷ Value.bool true ∷ [])
    ∷ []

csv_row-first :
    csv_row (Value.int true 120 ∷ Value.text quoted_reason ∷ [])
    ≡ str "-120,\"bad \"\"CN\"\", expired\""
unfolding csv_row csv_cell csv_escape double_quotes normalize join
csv_row-first = refl

safe_filename-runs : safe_filename (str "__Scan: prod/é (1)__") ≡ str "Scan_prod_1"
unfolding safe_filename
safe_filename-runs = refl

safe_filename-empty : safe_filename (str "???") ≡ str "tls_scan_report"
unfolding safe_filename
safe_filename-empty = refl

records-csv_content_example :
    records (csv_content (str "pqc") rows) ≡ csv_headers (str "pqc") ∷ map (map normalize) rows
records-csv_content_example = records-csv_content (str "pqc") rows ((λ e. cc), ((λ e. cc), tt))

safe_filename-IsFileName_example : IsFileName (safe_filename (str "/etc/passwd"))
safe_filename-IsFileName_example = safe_filename-IsFileName (str "/etc/passwd")

report-IsFileName : IsFileName (str "r-1")
unfolding is_file_char
report-IsFileName = record {
  chars = (refl, (refl, (refl, tt)));
  nonempty = λ e. cc;
  first = refl;
  last = refl;
}
