-- ===== src/Certificates/Examples.antt =====
-- The certificate chapter of the sample report.
use scan_tls.Common.{str, List, map, none, ◌≡◌, refl, Perm, All, IsSorted, filter, length, ◌==◌}
use scan_tls.Report.{Endpoint}
use scan_tls.Report.Samples.{endpoints, public_certificate}
use scan_tls.Locale.{plain_locale}
use scan_tls.Certificates.{
  by_remaining, certificate_shown, compare_certificates, certificate_row, render_certificates,
  certificate_headers, key_label, trust_tone, TrustTone,
}
use scan_tls.Certificates.View.{render_certificates_lem}

render_certificates_lem_example :
    (shown : List Endpoint) × (render_certificates plain_locale endpoints none by_remaining
      ≡ map (certificate_row plain_locale) shown)
    × Perm shown (filter (certificate_shown none) endpoints)
    × IsSorted (compare_certificates plain_locale by_remaining) shown
    × All
        (λ row. length row ≡ length certificate_headers)
        (render_certificates plain_locale endpoints none by_remaining)
render_certificates_lem_example = render_certificates_lem plain_locale endpoints none by_remaining

key_label-runs : key_label public_certificate ≡ str "RSA 2048"
unfolding key_label
key_label-runs = refl

trust_tone-runs : trust_tone plain_locale (str "PRIVATE_TRUSTED") ≡ TrustTone.compliant
unfolding trust_tone ◌==◌
trust_tone-runs = refl
