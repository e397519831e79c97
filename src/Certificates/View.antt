-- ===== src/Certificates/View.antt =====
-- What the certificate chapter shows.
use scan_tls.Common.{
  Text, List, [], ◌∷◌, map, Option, ◌≡◌, refl, All, All-of_forall, length, filter, Perm, IsSorted,
  IsPreorder, sort_by, sort_by-perm, sort_by-IsSorted, on-IsPreorder, on_nat-IsPreorder,
}
use scan_tls.Numbers.{compare_decimal}
use scan_tls.Numbers.Order.{compare_decimal-IsPreorder}
use scan_tls.Report.{Endpoint}
use scan_tls.Locale.{Locale, Anything}
use scan_tls.Certificates.{
  CertificateSort, by_expiration, by_remaining, by_status, by_endpoint, by_issuer, by_key_size,
  days_of, certificate_shown, compare_certificates, certificate_row, render_certificates,
  certificate_headers,
}

module _ (locale : Locale) where
  compare_certificates-IsPreorder :
      (sort : CertificateSort) → IsPreorder (compare_certificates locale sort) Anything
  unfolding compare_certificates
  compare_certificates-IsPreorder by_remaining =
      on-IsPreorder Anything (λ e. days_of e.certificate.remaining_days) compare_decimal
        compare_decimal-IsPreorder
  compare_certificates-IsPreorder by_status =
      on-IsPreorder Anything (λ e. e.certificate.status) locale.compare locale.compare_order
  compare_certificates-IsPreorder by_issuer =
      on-IsPreorder Anything (λ e. e.certificate.issuer) locale.compare locale.compare_order
  compare_certificates-IsPreorder by_key_size =
      on_nat-IsPreorder Anything (λ e. e.certificate.key_size)
  compare_certificates-IsPreorder by_endpoint =
      on-IsPreorder Anything (λ e. e.endpoint_id) locale.natural locale.natural_order
  compare_certificates-IsPreorder by_expiration =
      on-IsPreorder Anything (λ e. e.certificate.valid_until) locale.compare locale.compare_order

  -- The rows of the certificate chapter are those of the endpoints that pass the filter, each once,
  -- in the chosen order, and each row has a cell for every header.
  pub render_certificates_lem :
      (endpoints : List Endpoint) (status : Option Text) (sort : CertificateSort)
      → (shown : List Endpoint) × (render_certificates locale endpoints status sort
          ≡ map (certificate_row locale) shown)
        × Perm shown (filter (certificate_shown status) endpoints)
        × IsSorted (compare_certificates locale sort) shown
        × All
            (λ row. length row ≡ length certificate_headers)
            (render_certificates locale endpoints status sort)
  unfolding render_certificates
  render_certificates_lem endpoints status sort =
      let some_ = filter (certificate_shown status) endpoints in
      (
        sort_by (compare_certificates locale sort) some_,
        refl,
        sort_by-perm _ some_,
        sort_by-IsSorted _ Anything (compare_certificates-IsPreorder sort) some_
            (All-of_forall (λ e. tt) some_),
        full_rows (sort_by (compare_certificates locale sort) some_),
      )
    where
      full_rows :
          (shown : List Endpoint)
          → All
              (λ row. length row ≡ length certificate_headers)
              (map (certificate_row locale) shown)
      full_rows [] = tt
      full_rows (e ∷ es) = (unfold certificate_row in refl, full_rows es)
