-- ===== src/Report/Samples.antt =====
-- A small report for the examples: two hosts, three endpoints and three findings.
use scan_tls.Common.{some, Text, str, List, [], ◌∷◌, true, false}
use scan_tls.Report.{Suite, Certificate, Endpoint, Finding, Statistics}

abbrev pub strong_suite : Suite
strong_suite = record {
  tls_version = str "TLS1.3";
  name = str "TLS_AES_128_GCM_SHA256";
  key_exchange = str "ECDHE";
  authentication = str "RSA";
  encryption = str "AES128";
  hash_algorithm = str "SHA256";
  forward_secrecy = str "yes";
  strength = str "strong";
  compliance_status = str "compliant";
  policy_reason = [];
}

abbrev pub weak_suite : Suite
weak_suite = record strong_suite {
  tls_version = str "TLS1.0";
  name = str "RC4-SHA";
  compliance_status = str "non-compliant";
}

abbrev pub public_certificate : Certificate
public_certificate = record {
  subject = str "CN=a.example";
  issuer = str "CN=ca";
  san = str "a.example" ∷ [];
  valid_until = str "2030-01-01";
  remaining_days = some (record { negative = false; mantissa = 90; scale = 0 });
  key_type = str "RSA";
  key_size = 2048;
  signature_algorithm = str "sha256";
  trust_classification = str "Publicly trusted";
  trusted_by = str "mozilla" ∷ [];
  trust_anchor = str "ca";
  hostname_validation_status = str "valid";
  chain_validation_status = str "valid";
  revocation_status = str "good";
  status = str "Valid";
}

abbrev pub expired_certificate : Certificate
expired_certificate = record public_certificate {
  subject = str "CN=b.example";
  remaining_days = some (record { negative = true; mantissa = 3; scale = 0 });
  trust_classification = str "Private CA";
  status = str "Expired";
}

abbrev pub web_endpoint : Endpoint
web_endpoint = record {
  endpoint_id = str "e1";
  host_id = str "h1";
  hostname = str "a.example";
  ip_address = str "10.0.0.1";
  port = 443;
  protocol = str "https";
  overall_grade = str "A+";
  compliance_status = str "compliant";
  highest_severity = str "none";
  finding_ids = [];
  finding_count = 0;
  supported_tls_versions = str "TLS1.3" ∷ [];
  cipher_suites = strong_suite ∷ [];
  certificate = public_certificate;
}

abbrev pub mail_endpoint : Endpoint
mail_endpoint = record web_endpoint {
  endpoint_id = str "e2";
  port = 25;
  protocol = str "smtp";
  overall_grade = str "C";
  compliance_status = str "non-compliant";
  highest_severity = str "high";
  finding_ids = str "f1" ∷ str "f2" ∷ [];
  finding_count = 2;
  cipher_suites = strong_suite ∷ weak_suite ∷ [];
}

abbrev pub old_endpoint : Endpoint
old_endpoint = record mail_endpoint {
  endpoint_id = str "e3";
  hostname = [];
  ip_address = str "10.0.0.2";
  overall_grade = str "F";
  highest_severity = str "critical";
  finding_ids = str "f3" ∷ [];
  finding_count = 1;
  certificate = expired_certificate;
}

abbrev pub endpoints : List Endpoint
endpoints = web_endpoint ∷ old_endpoint ∷ mail_endpoint ∷ []

abbrev pub high_finding : Finding
high_finding = record {
  finding_id = str "f1";
  title = str "RC4 is offered";
  severity = str "high";
  description = [];
  technical_impact = [];
  evidence = [];
  remediation = [];
  affected_endpoint_ids = str "e2" ∷ [];
  policy_ids = [];
}

abbrev pub low_finding : Finding
low_finding = record high_finding {
  finding_id = str "f2";
  title = str "Long chain";
  severity = str "low";
}

abbrev pub critical_finding : Finding
critical_finding = record high_finding {
  finding_id = str "f3";
  title = str "Certificate expired";
  severity = str "critical";
  affected_endpoint_ids = str "e3" ∷ [];
}

abbrev pub findings : List Finding
findings = low_finding ∷ high_finding ∷ critical_finding ∷ []

abbrev pub statistics : Statistics
statistics = record {
  total_hosts = 2;
  total_endpoints = 3;
  compliant_endpoints = 1;
  non_compliant_endpoints = 2;
  endpoints_with_errors = 0;
  endpoints_not_fully_tested = 0;
  finding_occurrences = 3;
  critical_findings = 1;
  high_findings = 1;
}

-- a stand-in for `JSON.stringify`: the words that the searches of the examples look for
abbrev pub serialize_endpoint : Endpoint → Text
serialize_endpoint e = e.hostname

abbrev pub serialize_finding : Finding → Text
serialize_finding f = f.title
