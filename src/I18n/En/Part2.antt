-- ===== src/I18n/En/Part2.antt =====
-- frontend/src/i18n/en.ts, lines 97 to 190.
use scan_tls.Common.{Text, List, [], ◌∷◌, ◌:>◌}

unfoldable pub en_2 : List (Text × Text)
en_2 =
    "admin.src.ldap" :> "LDAP"
    ∷ "admin.src.sso" :> "SSO"
    ∷ "admin.src.pending" :> "Pre-provisioned"
    ∷ "admin.googleDirectory" :> "Google Workspace (Admin SDK)"
    ∷ "admin.googleDomain" :> "Workspace domain"
    ∷ "admin.googleAdmin" :> "Delegated administrator e-mail"
    ∷ "admin.googleKeyHint"
      :> "Read-only lookup with a service account (domain-wide delegation, scope admin.directory.user.readonly). The JSON key is read from the server variable TLS_SCAN_GOOGLE_DIRECTORY_KEY_FILE, never stored here. Not needed to sign in with Google."
    ∷ "login.ssoMicrosoft" :> "Sign in with Microsoft"
    ∷ "login.ssoGoogle" :> "Sign in with Google"
    ∷ "login.local" :> "Local sign-in"
    ∷ "login.directory" :> "Sign in with your directory account"
    ∷ "login.backToExternal" :> "Back to the main sign-in"
    ∷ "admin.storageFree" :> "Free storage"
    ∷ "admin.tempPassword" :> "One-time password"
    ∷ "admin.tempPasswordHint" :> "Shown once. The user must change it at first sign-in."
    ∷ "admin.testSmtp" :> "Test connection"
    ∷ "admin.testTo" :> "Send test to"
    ∷ "admin.users" :> "Users"
    ∷ "admin.reports_days" :> "Reports"
    ∷ "admin.runs_days" :> "Scan history"
    ∷ "admin.audit_days" :> "Audit log"
    ∷ "cmp.changes" :> "Endpoint changes"
    ∷ "cmp.fixed" :> "Fixed"
    ∷ "cmp.new" :> "New non-compliances"
    ∷ "cmp.notRetested" :> "Not re-tested (not counted as fixed)"
    ∷ "cmp.persistent" :> "Persistent"
    ∷ "cmp.title" :> "Compare with previous"
    ∷ "cmp.warn.scope_differs" :> "The scope differs between the two scans."
    ∷ "cmp.warn.profile_differs" :> "The technical profile differs."
    ∷ "cmp.warn.policy_versions_differ" :> "Policy versions differ."
    ∷ "cmp.warn.incomplete_runs" :> "One of the scans is incomplete."
    ∷ "col.date" :> "Date"
    ∷ "col.description" :> "Description"
    ∷ "col.duration" :> "Duration"
    ∷ "col.name" :> "Name"
    ∷ "col.nonCompliant" :> "Non-compliant"
    ∷ "col.phase" :> "Phase"
    ∷ "col.si" :> "Information systems"
    ∷ "col.status" :> "Status"
    ∷ "col.tags" :> "Tags"
    ∷ "col.type" :> "Type"
    ∷ "confirm.cancelScan" :> "Cancel this scan? Partial results are kept."
    ∷ "confirm.delete" :> "Delete this item?"
    ∷ "dash.completed" :> "Completed"
    ∷ "dash.compliant" :> "Compliant"
    ∷ "dash.failed" :> "Failed"
    ∷ "dash.nonCompliant" :> "Non-compliant"
    ∷ "dash.noScans" :> "No scan yet."
    ∷ "dash.noTrend" :> "Not enough finished scans yet."
    ∷ "dash.noUpcoming" :> "No upcoming schedule."
    ∷ "dash.recent" :> "Recent scans"
    ∷ "dash.running" :> "In progress"
    ∷ "dash.scope" :> "Scope"
    ∷ "dash.scopeAll" :> "All scans"
    ∷ "dash.scopeMine" :> "My scans"
    ∷ "evo.sev.critical" :> "Critical"
    ∷ "evo.sev.high" :> "High"
    ∷ "evo.sev.medium" :> "Medium"
    ∷ "evo.sev.low" :> "Low"
    ∷ "evo.title" :> "Evolution between two dates"
    ∷ "evo.from" :> "From"
    ∷ "evo.to" :> "To"
    ∷ "evo.invalid" :> "The start date must not be after the end date."
    ∷ "evo.noRuns" :> "No finished scan of this scan definition up to that date."
    ∷ "evo.single" :> "Only one scan in this period (on {date}): nothing to compare yet."
    ∷ "evo.open" :> "Open the detailed comparison"
    ∷ "evo.new" :> "New"
    ∷ "evo.fixed" :> "Fixed"
    ∷ "evo.persistent" :> "Persistent"
    ∷ "evo.not_retested" :> "Not retested"
    ∷ "evo.bySeverity" :> "Findings per severity"
    ∷ "evo.severity" :> "Severity"
    ∷ "evo.endpoints" :> "Endpoints: +{added} / -{removed}"
    ∷ "evo.compliance" :> "Compliance: {improved} improved, {degraded} degraded"
    ∷ "evo.certs" :> "{n} certificate change(s)"
    ∷ "evo.list.new" :> "New findings"
    ∷ "evo.list.fixed" :> "Fixed findings"
    ∷ "evo.endpointsN" :> "{n} endpoint(s)"
    ∷ "evo.series" :> "Findings per scan (occurrences by severity)"
    ∷ "evo.warn.scope_differs" :> "The targets differ between the two scans."
    ∷ "evo.warn.profile_differs" :> "The scan profile differs between the two scans."
    ∷ "evo.warn.policy_versions_differ" :> "The policy versions differ between the two scans."
    ∷ "evo.warn.incomplete_runs" :> "One of the two scans is incomplete: some hosts were skipped."
    ∷ "dash.trend" :> "Compliance over time"
    ∷ "dash.section.posture" :> "Security and compliance"
    ∷ "dash.section.activity" :> "Scan activity"
    ∷ "dash.na" :> "Not available"
    ∷ "dash.notEvaluated" :> "Not evaluated"
    ∷ "dash.noData" :> "Run a scan to see your compliance here."
    ∷ "dash.kpi.compliance" :> "TLS compliance"
    ∷ "dash.kpi.complianceHint" :> "{n} of {total} evaluated endpoints are compliant"
    ∷ "dash.kpi.complianceTip"
      :> "Compliant endpoints ÷ (compliant + non-compliant), on the latest result of each distinct endpoint. Endpoints in error or not tested are shown apart and never counted as compliant."
    ∷ "dash.kpi.unevaluated" :> "{n} not evaluated"
    ∷ "dash.kpi.noncompliant" :> "Non-compliant endpoints"
    ∷ []
