-- ===== src/Csv.antt =====
-- tls_scanner/exports/assets/html/js/report.js, the CSV download: `csvHeaders`, `csvCell`,
-- `csvContent` and `safeFilename`. The click handler that hands the text to the browser is not
-- modelled.
pub mod Reader
pub mod Roundtrip
pub mod Filename
mod Examples
use mathlib.Core.List.{reverse}
use scan_tls.Common.{
  Text, str, eqb, any, join, is_empty, if◌then◌else◌, ℕ, leb, Bool, true, false, ◌&&◌, ◌||◌, List,
  [], ◌∷◌, ◌++◌, map, ◌==◌,
}
use scan_tls.Value.{Value, normalize}

abbrev pub quote : ℕ
quote = b'"'

abbrev pub comma : ℕ
comma = b','

abbrev pub newline : ℕ
newline = 10

abbrev pub carriage_return : ℕ
carriage_return = 13

-- `csvHeaders()`; `pqc` is the test `data.metadata.crypto_profile === 'pqc'`
unfoldable pub csv_headers : Text → List Text
unfolding ◌==◌
csv_headers crypto_profile =
    let pqc = crypto_profile == str "pqc" in
    (str "IP"
      ∷ str "FQDN"
      ∷ str "Port"
      ∷ (if pqc then str "TLS Grade" else str "Grade")
      ∷ str "TLS Version"
      ∷ str "Cipher Suite"
      ∷ str "Public Key"
      ∷ str "Certificate Validity"
      ∷ [])
    ++ (if pqc then str "Key Exchange" ∷ [] else [])
    ++ (str "Certificate Crypto"
        ∷ str "Self-signed"
        ∷ str "Certificate Days Left"
        ∷ str "Certificate Issuer"
        ∷ str "Certificate Subject"
        ∷ str "Certificate SAN"
        ∷ str "Certificate Key Type"
        ∷ str "Certificate Key Size"
        ∷ str "Certificate Signature Algorithm"
        ∷ str "Certificate Trust Classification"
        ∷ str "Certificate Trusted By"
        ∷ str "Certificate Trust Anchor"
        ∷ str "Certificate Chain Validation"
        ∷ str "Certificate Revocation"
        ∷ str "Certificate OCSP"
        ∷ str "Certificate CRL"
        ∷ str "Compliance"
        ∷ str "Reason"
        ∷ [])

-- the class `[",\n\r]`
abbrev pub is_special : ℕ → Bool
is_special c = eqb c quote || eqb c comma || eqb c newline || eqb c carriage_return

-- `normalized.replace(/"/g, '""')`
unfoldable pub double_quotes : Text → Text
double_quotes [] = []
double_quotes (c ∷ s) = if eqb c quote then quote ∷ quote ∷ double_quotes s else c ∷ double_quotes s

-- the part of `csvCell` after `normalize`
unfoldable pub csv_escape : Text → Text
csv_escape s = if any is_special s then quote ∷ (double_quotes s ++ quote ∷ []) else s

-- `csvCell`
unfoldable pub csv_cell : Value → Text
csv_cell v = csv_escape (normalize v)

-- `row.map(csvCell).join(',')`
unfoldable pub csv_row : List Value → Text
csv_row row = join (comma ∷ []) (map csv_cell row)

-- `csvContent`
unfoldable pub csv_content : Text → List (List Value) → Text
csv_content crypto_profile raw_results =
    join (newline ∷ []) (map csv_row (map Value.text (csv_headers crypto_profile) ∷ raw_results))
    ++ newline ∷ []

-- `[a-z0-9._-]` with the flag `i`
unfoldable pub is_file_char : ℕ → Bool
is_file_char c =
    leb b'a' c && leb c b'z'
    || leb b'A' c && leb c b'Z'
    || leb b'0' c && leb c b'9'
    || eqb c b'.'
    || eqb c b'_'
    || eqb c b'-'

-- `.replace(/[^a-z0-9._-]+/gi, '_')`; the flag says that the run has its underscore already
unfoldable pub squash : Bool → Text → Text
squash in_run [] = []
squash in_run (c ∷ s) =
    if is_file_char c
    then c ∷ squash false s
    else if in_run
    then squash true s
    else b'_' ∷ squash true s

unfoldable pub drop_underscores : Text → Text
drop_underscores [] = []
drop_underscores (c ∷ s) = if eqb c b'_' then drop_underscores s else c ∷ s

-- `.replace(/^_+|_+$/g, '')`
unfoldable pub trim_underscores : Text → Text
unfolding drop_underscores
trim_underscores s = reverse (drop_underscores (reverse (drop_underscores s)))

abbrev pub default_name : Text
default_name = str "tls_scan_report"

-- `s || 'tls_scan_report'`
abbrev pub or_default : Text → Text
or_default s = if is_empty s then default_name else s

-- `safeFilename`
unfoldable pub safe_filename : Text → Text
unfolding squash trim_underscores is_file_char
safe_filename value = or_default (trim_underscores (squash false (or_default value)))
