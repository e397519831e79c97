-- ===== src/I18n/En/Part5.antt =====
-- frontend/src/i18n/en.ts, lines 379 to 472.
use scan_tls.Common.{Text, List, [], ◌∷◌, ◌:>◌}

unfoldable pub en_5 : List (Text × Text)
en_5 =
    "run.compliant" :> "Compliant endpoints"
    ∷ "run.critical" :> "Critical findings"
    ∷ "run.endpoints" :> "Endpoints"
    ∷ "run.expandHost" :> "Show the endpoints of this host"
    ∷ "run.endpointsCount" :> "{n} endpoints"
    ∷ "run.byHost" :> "By host"
    ∷ "run.allEndpoints" :> "All endpoints"
    ∷ "run.endpointsTitle" :> "Endpoints"
    ∷ "run.errors" :> "Errors"
    ∷ "run.finding" :> "Finding"
    ∷ "run.findings" :> "Findings"
    ∷ "run.grade" :> "Grade"
    ∷ "run.hosts" :> "hosts"
    ∷ "run.nonCompliant" :> "Non-compliant endpoints"
    ∷ "run.noTls"
      :> "No TLS service was found on the scanned ports. This is neither a success nor a compliance result."
    ∷ "run.notTested" :> "Checks not performed"
    ∷ "run.openHtml" :> "Open HTML report"
    ∷ "run.partial" :> "This scan is partial: some targets or checks were not completed."
    ∷ "run.severity" :> "Severity"
    ∷ "run.skipped" :> "not processed"
    ∷ "scans.definitions" :> "Definitions"
    ∷ "scans.none" :> "No scan."
    ∷ "scans.onlyMine" :> "Only mine"
    ∷ "scans.runs" :> "Executions"
    ∷ "sched.active" :> "Active"
    ∷ "sched.allSubtitle" :> "All schedules"
    ∷ "sched.at" :> "Date and time"
    ∷ "sched.cron" :> "Cron expression"
    ∷ "sched.cronHint" :> "5 fields; at most one run every 5 minutes."
    ∷ "sched.day" :> "Day of month (1-28)"
    ∷ "sched.definition" :> "Scan definition"
    ∷ "sched.dueAt" :> "Due at"
    ∷ "sched.frequency" :> "Frequency"
    ∷ "sched.history" :> "History"
    ∷ "sched.inactive" :> "Inactive"
    ∷ "sched.last" :> "Last run"
    ∷ "sched.mineSubtitle" :> "Your schedules"
    ∷ "sched.new" :> "New schedule"
    ∷ "sched.next" :> "Next run"
    ∷ "sched.none" :> "No schedule."
    ∷ "sched.outcome" :> "Outcome"
    ∷ "sched.outcome.triggered" :> "Triggered"
    ∷ "sched.outcome.skipped_overlap" :> "Skipped (still running)"
    ∷ "sched.outcome.skipped_late" :> "Missed (service was down)"
    ∷ "sched.outcome.error" :> "Error"
    ∷ "sched.reason" :> "Reason"
    ∷ "sched.time" :> "Time"
    ∷ "sched.timezone" :> "Time zone"
    ∷ "sched.weekday" :> "Day of week"
    ∷ "sched.once" :> "Once"
    ∷ "sched.daily" :> "Daily"
    ∷ "sched.weekly" :> "Weekly"
    ∷ "sched.monthly" :> "Monthly"
    ∷ "si.empty" :> "No information system yet."
    ∷ "si.none" :> "None (top-level SI)"
    ∷ "si.parent" :> "Parent SI"
    ∷ "status.scheduled" :> "Scheduled"
    ∷ "status.queued" :> "Queued"
    ∷ "status.running" :> "Running"
    ∷ "status.completed" :> "Completed"
    ∷ "status.partial" :> "Partially completed"
    ∷ "status.failed" :> "Failed"
    ∷ "status.cancelled" :> "Cancelled"
    ∷ "status.expired" :> "Expired"
    ∷ "tags.empty" :> "No tag yet. Tags are created when you add them to a target."
    ∷ "target.edit" :> "Edit target"
    ∷ "target.export" :> "Export"
    ∷ "target.import" :> "Import"
    ∷ "target.imported" :> "{created} created, {existing} already existed."
    ∷ "target.importHint" :> "One target per line: value;ports;description"
    ∷ "target.new" :> "New target"
    ∷ "target.none" :> "No target."
    ∷ "target.ports" :> "Ports (optional)"
    ∷ "target.portsHint" :> "Overrides the profile's ports for this target."
    ∷ "target.value" :> "Target"
    ∷ "target.valueHint" :> "FQDN, IP address or CIDR"
    ∷ "targets.groups" :> "Target groups"
    ∷ "targets.si" :> "Information systems"
    ∷ "targets.tags" :> "Tags"
    ∷ "targets.targets" :> "Targets"
    ∷ "tasks.failed" :> "My failed scans"
    ∷ "tasks.none" :> "Nothing here."
    ∷ "tasks.reports" :> "My recent reports"
    ∷ "tasks.running" :> "My scans in progress"
    ∷ "tasks.upcoming" :> "My upcoming operations"
    ∷ "tpl.formats" :> "Formats"
    ∷ "tpl.none" :> "No template."
    ∷ "pref.ev.new_noncompliance" :> "New non-compliance found"
    ∷ "pref.ev.certificate_expiring" :> "Certificate expired or expiring"
    ∷ "pref.ev.schedule_problem" :> "Schedule problem"
    ∷ "admin.connector" :> "Notification connector"
    ∷ "admin.connectorNone" :> "None"
    ∷ "admin.graphTenant" :> "Tenant ID"
    ∷ "admin.graphClient" :> "Client (application) ID"
    ∷ []
