-- ===== src/I18n/En/Part3.antt =====
-- frontend/src/i18n/en.ts, lines 191 to 284.
use scan_tls.Common.{Text, List, [], ◌∷◌, ◌:>◌}

unfoldable pub en_3 : List (Text × Text)
en_3 =
    "dash.kpi.noncompliantHint" :> "Distinct endpoints, latest result of each"
    ∷ "dash.kpi.noncompliantNone" :> "No non-compliant endpoint"
    ∷ "dash.kpi.findings" :> "Critical and high findings"
    ∷ "dash.kpi.findingsHint" :> "{c} critical · {h} high"
    ∷ "dash.kpi.findingsTip"
      :> "Distinct findings (one per type of problem), as reported by the scan engine on the latest results. An occurrence is a finding on one endpoint: {o} occurrences here. Informational findings and scan errors are not counted."
    ∷ "dash.kpi.certs" :> "Certificates to watch"
    ∷ "dash.kpi.certsHint" :> "{e} expired · {s} expire within {d} days"
    ∷ "dash.kpi.certsNone" :> "None to watch within {d} days"
    ∷ "dash.kpi.certsTip"
      :> "One certificate counted once, whatever the number of endpoints presenting it. Remaining days are those measured by the scan, reduced by the time elapsed since."
    ∷ "dash.kpi.certsList" :> "Soonest expiry"
    ∷ "dash.cert.expired" :> "expired {n} d ago"
    ∷ "dash.cert.in" :> "in {n} d"
    ∷ "dash.breakdown" :> "Compliance breakdown"
    ∷ "dash.unevaluated" :> "Not evaluated or partial"
    ∷ "dash.breakdownTotal" :> "{n} distinct endpoints"
    ∷ "dash.basis" :> "Latest result of {n} scans"
    ∷ "dash.mixedPolicies" :> "Several policies or policy versions are combined here: {names}."
    ∷ "dash.trendDef" :> "Scan"
    ∷ "dash.trendRate" :> "{rate} % · {c} compliant of {e} evaluated"
    ∷ "dash.trendNone" :> "No endpoint evaluated"
    ∷ "dash.trendTotal" :> "{n} endpoints in the scan"
    ∷ "dash.trendChanged"
      :> "Scope, profile or policy changed since the previous run: not directly comparable."
    ∷ "dash.trendChangedLegend" :> "Hollow point: conditions changed since the previous run"
    ∷ "dash.trendAxis" :> "Compliance rate"
    ∷ "dash.watch" :> "Priority watch points"
    ∷ "dash.watchEmpty" :> "No anomaly found in the latest results."
    ∷ "dash.watchEndpoint" :> "{n} endpoint"
    ∷ "dash.watchEndpoints" :> "{n} endpoints"
    ∷ "dash.watchCheck" :> "Complementary check"
    ∷ "dash.watchOpen" :> "Open results"
    ∷ "dash.upcoming" :> "Upcoming runs"
    ∷ "def.defaultTemplate" :> "Default (all formats)"
    ∷ "def.edit" :> "Edit scan definition"
    ∷ "def.groups" :> "Target groups"
    ∷ "def.new" :> "New scan"
    ∷ "def.noGroups" :> "No group yet."
    ∷ "def.none" :> "No scan definition yet."
    ∷ "def.noPolicies" :> "No published policy. An operator must publish one first."
    ∷ "def.noTargets" :> "No target yet. Create targets first."
    ∷ "def.policies" :> "Cryptographic policies"
    ∷ "def.policiesHint"
      :> "The latest published version is used; scheduled scans follow new versions automatically."
    ∷ "def.profile" :> "Scan profile"
    ∷ "def.targets" :> "Targets"
    ∷ "def.template" :> "Report template"
    ∷ "filter.allSi" :> "All information systems"
    ∷ "filter.allStatuses" :> "All statuses"
    ∷ "filter.allTags" :> "All tags"
    ∷ "group.edit" :> "Edit group"
    ∷ "group.new" :> "New group"
    ∷ "group.none" :> "No group yet."
    ∷ "hint.commaSeparated" :> "Comma-separated"
    ∷ "login.eyebrow" :> "SECURE ACCESS"
    ∷ "login.title" :> "Sign in"
    ∷ "login.intro" :> "Sign in with your account to configure, run and review TLS scans."
    ∷ "login.tagline" :> "Master your TLS exposure"
    ∷ "login.product" :> "TLS & cryptography compliance scanning"
    ∷ "login.vendor" :> "A product of"
    ∷ "login.space" :> "TLS scan console"
    ∷ "login.foot" :> "Protected area. With SSO, your password is never typed here."
    ∷ "login.changeTitle" :> "Choose a new password"
    ∷ "login.crashtest"
      :> "CrashTest environment: demo accounts and fictional data. Not for production."
    ∷ "login.changeAndContinue" :> "Change password and continue"
    ∷ "login.currentPassword" :> "Current password"
    ∷ "login.invalid" :> "Invalid credentials."
    ∷ "login.mustChange" :> "You must choose a new password before continuing."
    ∷ "login.newPassword" :> "New password"
    ∷ "login.password" :> "Password"
    ∷ "login.passwordHint" :> "At least 12 characters, not a common password."
    ∷ "login.sso" :> "Sign in with SSO"
    ∷ "login.submit" :> "Sign in"
    ∷ "login.username" :> "Username or e-mail"
    ∷ "nav.admin" :> "Administration"
    ∷ "nav.dashboard" :> "Dashboard"
    ∷ "nav.logout" :> "Sign out"
    ∷ "nav.policies" :> "Profiles"
    ∷ "nav.preferences" :> "Preferences"
    ∷ "nav.reports" :> "Reports"
    ∷ "nav.scans" :> "Scans"
    ∷ "nav.schedules" :> "Schedules"
    ∷ "nav.targets" :> "Targets"
    ∷ "nav.tasks" :> "My tasks"
    ∷ "phase." :> ""
    ∷ "phase.starting" :> "Starting"
    ∷ "phase.pqc_preflight" :> "PQC prerequisites check"
    ∷ "phase.discovery" :> "Port discovery"
    ∷ "phase.tls_scan" :> "TLS analysis"
    ∷ "phase.grading" :> "Evaluating compliance"
    ∷ "phase.reporting" :> "Generating reports"
    ∷ "phase.done" :> "Done"
    ∷ "pol.archive" :> "Archive"
    ∷ "pol.archived" :> "Archived"
    ∷ "pol.ciphers" :> "Allowed cipher algorithms"
    ∷ "pol.draft" :> "draft"
    ∷ "pol.duplicate" :> "Duplicate"
    ∷ []
