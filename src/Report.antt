-- ===== src/Report.antt =====
-- The report data that tls_scanner/exports/assets/html/js/report.js parses from the page
-- (`JSON.parse(… 'report-data' …)`): one record for each object that the script reads, with the
-- fields that it reads. A port is a decimal number in the data, and is that number here.
pub mod Samples
use scan_tls.Common.{Text, ℕ, Bool, Option, List}
use scan_tls.Numbers.{Decimal}

pub record Suite : Type 0 where
  pub tls_version : Text
  pub name : Text
  pub key_exchange : Text
  pub authentication : Text
  pub encryption : Text
  pub hash_algorithm : Text
  pub forward_secrecy : Text
  pub strength : Text
  pub compliance_status : Text
  pub policy_reason : Text

pub record Certificate : Type 0 where
  pub subject : Text
  pub issuer : Text
  pub san : List Text
  pub valid_until : Text
  -- an integer, or null
  pub remaining_days : Option Decimal
  pub key_type : Text
  -- absent or 0 where the size is not known
  pub key_size : ℕ
  pub signature_algorithm : Text
  pub trust_classification : Text
  pub trusted_by : List Text
  pub trust_anchor : Text
  pub hostname_validation_status : Text
  pub chain_validation_status : Text
  pub revocation_status : Text
  pub status : Text

pub record Endpoint : Type 0 where
  pub endpoint_id : Text
  pub host_id : Text
  pub hostname : Text
  pub ip_address : Text
  pub port : ℕ
  pub protocol : Text
  pub overall_grade : Text
  pub compliance_status : Text
  pub highest_severity : Text
  pub finding_ids : List Text
  pub finding_count : ℕ
  pub supported_tls_versions : List Text
  pub cipher_suites : List Suite
  pub certificate : Certificate

pub record Finding : Type 0 where
  pub finding_id : Text
  pub title : Text
  pub severity : Text
  pub description : Text
  pub technical_impact : Text
  pub evidence : Text
  pub remediation : Text
  pub affected_endpoint_ids : List Text
  pub policy_ids : List Text

-- The members of `data.statistics` that are plain counts.
pub record Statistics : Type 0 where
  pub total_hosts : ℕ
  pub total_endpoints : ℕ
  pub compliant_endpoints : ℕ
  pub non_compliant_endpoints : ℕ
  pub endpoints_with_errors : ℕ
  pub endpoints_not_fully_tested : ℕ
  pub finding_occurrences : ℕ
  pub critical_findings : ℕ
  pub high_findings : ℕ
