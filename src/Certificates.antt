-- ===== src/Certificates.antt =====
-- tls_scanner/exports/assets/html/js/report.js, the certificate chapters: `trustTone`,
-- `trustedByLabel`, `trustAnchorLabel`, and the filter, the order and the rows of `initCertificates`.
-- A badge is its text and its class; the markup around it is not modelled.
pub mod View
mod Examples
use scan_tls.Common.{
  Text, str, ℕ, Bool, true, false, not, List, [], ◌∷◌, ◌++◌, map, Option, none, some, ◌==◌, ◌||◌,
  eqb, if◌then◌else◌, filter, join, or_text, Ordering, compare, sort_by,
}
use scan_tls.Value.{show_nat}
use scan_tls.Numbers.{Decimal, compare_decimal}
use scan_tls.Report.{Certificate, Endpoint}
use scan_tls.Locale.{Locale}
use scan_tls.Table.{trim}

-- the class names of `trustTone`
pub data TrustTone : Type 0 where
  compliant non_compliant error not_tested : TrustTone

-- the tests of `trustTone` on the text in lower case
unfoldable pub tone_of : Text → TrustTone
tone_of normalized =
    if normalized == str "public_trusted"
      || normalized == str "private_trusted"
      || normalized == str "trusted"
      || normalized == str "passed"
      || normalized == str "valid"
    then compliant
    else if normalized == str "untrusted"
        || normalized == str "failed"
        || normalized == str "revoked"
    then non_compliant
    else if normalized == str "error"
    then error
    else not_tested

-- `trustTone`
unfoldable pub trust_tone : Locale → Text → TrustTone
unfolding tone_of
trust_tone locale value = tone_of (locale.lower value)

-- `trustedByLabel` and `trustAnchorLabel`
unfoldable pub trusted_by_label : Certificate → Text
trusted_by_label cert = or_text (join (str ", ") cert.trusted_by) (str "N/A")

unfoldable pub trust_anchor_label : Certificate → Text
trust_anchor_label cert = or_text cert.trust_anchor (str "N/A")

-- A cell of a row: a text, or a badge.
pub data Cell : Type 0 where
  plain : Text → Cell
  badge : Text → TrustTone → Cell

-- The options of the select element `sort`.
pub data CertificateSort : Type 0 where
  by_expiration by_remaining by_status by_endpoint by_issuer by_key_size : CertificateSort

abbrev pub zero_days : Decimal
zero_days = record { negative = false; mantissa = 0; scale = 0 }

-- `Number(certificate.remaining_days) || 0`
unfoldable pub days_of : Option Decimal → Decimal
days_of none = zero_days
days_of (some days) = days

-- The filter of `render`; `none` is the option "all".
unfoldable pub certificate_shown : Option Text → Endpoint → Bool
certificate_shown none e = true
certificate_shown (some status) e = e.certificate.status == status

-- `${key_type} ${key_size || ''}`.trim()
unfoldable pub key_label : Certificate → Text
unfolding trim show_nat
key_label cert =
    trim (cert.key_type ++ b' ' ∷ (if eqb cert.key_size 0 then [] else show_nat cert.key_size))

module _ (locale : Locale) where
  -- the comparator of `endpoints.sort`
  unfoldable pub compare_certificates : CertificateSort → Endpoint → Endpoint → Ordering
  unfolding days_of compare_decimal
  compare_certificates by_remaining a b =
      compare_decimal (days_of a.certificate.remaining_days) (days_of b.certificate.remaining_days)
  compare_certificates by_status a b = locale.compare a.certificate.status b.certificate.status
  compare_certificates by_issuer a b = locale.compare a.certificate.issuer b.certificate.issuer
  compare_certificates by_key_size a b = compare a.certificate.key_size b.certificate.key_size
  compare_certificates by_endpoint a b = locale.natural a.endpoint_id b.endpoint_id
  compare_certificates by_expiration a b =
      locale.compare a.certificate.valid_until b.certificate.valid_until

  -- one entry of `rows`
  unfoldable pub certificate_row : Endpoint → List Cell
  unfolding trust_tone key_label trusted_by_label trust_anchor_label
  certificate_row e =
      let cert = e.certificate in
      plain e.endpoint_id
      ∷ plain cert.subject
      ∷ plain cert.valid_until
      ∷ plain (key_label cert)
      ∷ badge cert.trust_classification (trust_tone locale cert.trust_classification)
      ∷ badge cert.hostname_validation_status (trust_tone locale cert.hostname_validation_status)
      ∷ plain cert.issuer
      ∷ plain (join (str ", ") cert.san)
      ∷ plain (trusted_by_label cert)
      ∷ plain (trust_anchor_label cert)
      ∷ plain cert.signature_algorithm
      ∷ plain cert.chain_validation_status
      ∷ plain cert.revocation_status
      ∷ []

  -- the rows that `render` of `initCertificates` hands to its table
  unfoldable pub render_certificates :
      List Endpoint → Option Text → CertificateSort → List (List Cell)
  unfolding certificate_shown compare_certificates certificate_row
  render_certificates endpoints status sort =
      map certificate_row
        (sort_by (compare_certificates sort) (filter (certificate_shown status) endpoints))

-- the headers of the table
abbrev pub certificate_headers : List Text
certificate_headers =
    str "Endpoint"
    ∷ str "Subject"
    ∷ str "Expiration"
    ∷ str "Key"
    ∷ str "Trust"
    ∷ str "Hostname validation"
    ∷ str "Issuer"
    ∷ str "SAN"
    ∷ str "Trusted by"
    ∷ str "Trust anchor"
    ∷ str "Signature"
    ∷ str "Chain validation"
    ∷ str "Revocation"
    ∷ []
