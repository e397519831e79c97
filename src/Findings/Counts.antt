-- ===== src/Findings/Counts.antt =====
-- The numbers of an endpoint's findings by severity, described by the list of their ids.
use scan_tls.Common.{
  ℕ, Bool, List, [], ◌∷◌, ◌≡◌, refl, length, ltb, find?, if◌then◌else◌, ◌&&◌, Option, ◌==◌, not,
  any, filter, mem_text, ◌||◌, Text, none, some, Bool-cases, inl, inr, ◌+◌, false, arith, ◌&&◌,
}
use scan_tls.Hosts.{count_severity}
use scan_tls.Report.{Endpoint, Finding}
use scan_tls.Findings.{severities_known, levels}

-- whether the id names a finding, and of this severity
abbrev pub has_severity : List Finding → Text → Text → Bool
has_severity findings severity id = elim (find? (λ finding. finding.finding_id == id) findings) [
  | none ↦ false
  | some finding ↦ finding.severity == severity
]

-- whether the id names a finding whose severity is none of the five
abbrev pub has_other : List Finding → Text → Bool
has_other findings id = elim (find? (λ finding. finding.finding_id == id) findings) [
  | none ↦ false
  | some finding ↦ not (mem_text finding.severity levels)
]

-- the number of the endpoint's findings of a severity
abbrev pub number_of : List Finding → Text → Endpoint → ℕ
number_of findings severity endpoint =
    length (filter (has_severity findings severity) endpoint.finding_ids)

-- What an id's finding adds to a count, and to the list of the ids that are counted.
count_one :
    (severity id : Text) (ids : List Text) (count : ℕ) (found : Option Finding)
    → count ≡ length ids
    → (elim found [
      | none ↦ count
      | some finding ↦ if finding.severity == severity then 1 + count else count
    ])
      ≡ length (
          if elim found [ none ↦ false | some finding ↦ finding.severity == severity ]
          then id ∷ ids
          else ids)
count_one severity id ids count none h = h
count_one severity id ids count (some finding) h =
    elim (Bool-cases (finding.severity == severity)) [ inl e ↦ rw e (omega arith) | inr e ↦ rw e h ]

pub count_severity-number :
    (findings : List Finding) (severity : Text) (ids : List Text)
    → count_severity findings severity ids ≡ length (filter (has_severity findings severity) ids)
unfolding count_severity
count_severity-number findings severity [] = refl
count_severity-number findings severity (id ∷ ids) =
    count_one severity id (filter (has_severity findings severity) ids)
      (count_severity findings severity ids) (find? (λ finding. finding.finding_id == id) findings)
      (count_severity-number findings severity ids)

known_one :
    (more known : Bool) (found : Option Finding)
    → known ≡ not more
    → (elim found [ none ↦ known | some finding ↦ mem_text finding.severity levels && known ])
      ≡ not (
          (elim found [ none ↦ false | some finding ↦ not (mem_text finding.severity levels) ])
          || more)
known_one more known none h = h
known_one more known (some finding) h = ground arith

pub severities_known-not_other :
    (findings : List Finding) (ids : List Text)
    → severities_known findings ids ≡ not (any (has_other findings) ids)
unfolding severities_known
severities_known-not_other findings [] = refl
severities_known-not_other findings (id ∷ ids) =
    known_one (any (has_other findings) ids) (severities_known findings ids)
      (find? (λ finding. finding.finding_id == id) findings)
      (severities_known-not_other findings ids)

pub any-length : (p : Text → Bool) (ids : List Text) → ltb 0 (length (filter p ids)) ≡ any p ids
any-length p [] = ground arith
any-length p (id ∷ ids) = elim (Bool-cases (p id)) [
  | inl e ↦ rw e (ground arith)
  | inr e ↦ rw e (any-length p ids)
]
