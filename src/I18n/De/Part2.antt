-- ===== src/I18n/De/Part2.antt =====
-- frontend/src/i18n/de.ts, lines 98 to 191.
use scan_tls.Common.{Text, List, [], ◌∷◌, ◌:>◌}

unfoldable pub de_2 : List (Text × Text)
de_2 =
    "admin.src.ldap" :> "LDAP"
    ∷ "admin.src.sso" :> "SSO"
    ∷ "admin.src.pending" :> "Vorab angelegt"
    ∷ "admin.googleDirectory" :> "Google Workspace (Admin SDK)"
    ∷ "admin.googleDomain" :> "Workspace-Domain"
    ∷ "admin.googleAdmin" :> "E-Mail des delegierten Administrators"
    ∷ "admin.googleKeyHint"
      :> "Nur-Lese-Suche über ein Dienstkonto (domainweite Delegierung, Scope admin.directory.user.readonly). Der JSON-Schlüssel wird aus der Servervariable TLS_SCAN_GOOGLE_DIRECTORY_KEY_FILE gelesen, nie hier gespeichert. Für die Anmeldung mit Google nicht nötig."
    ∷ "login.ssoMicrosoft" :> "Mit Microsoft anmelden"
    ∷ "login.ssoGoogle" :> "Mit Google anmelden"
    ∷ "login.local" :> "Lokale Anmeldung"
    ∷ "login.directory" :> "Mit Ihrem Verzeichniskonto anmelden"
    ∷ "login.backToExternal" :> "Zurück zur Hauptanmeldung"
    ∷ "admin.storageFree" :> "Freier Speicher"
    ∷ "admin.tempPassword" :> "Einmalpasswort"
    ∷ "admin.tempPasswordHint"
      :> "Wird nur einmal angezeigt. Der Benutzer muss es bei der ersten Anmeldung ändern."
    ∷ "admin.testSmtp" :> "Verbindung testen"
    ∷ "admin.testTo" :> "Test senden an"
    ∷ "admin.users" :> "Benutzer"
    ∷ "admin.reports_days" :> "Berichte"
    ∷ "admin.runs_days" :> "Scan-Verlauf"
    ∷ "admin.audit_days" :> "Audit-Protokoll"
    ∷ "cmp.changes" :> "Änderungen je Endpunkt"
    ∷ "cmp.fixed" :> "Behoben"
    ∷ "cmp.new" :> "Neue Abweichungen"
    ∷ "cmp.notRetested" :> "Nicht erneut getestet (nicht als behoben gezählt)"
    ∷ "cmp.persistent" :> "Bestehend"
    ∷ "cmp.title" :> "Mit vorherigem vergleichen"
    ∷ "cmp.warn.scope_differs" :> "Der Umfang unterscheidet sich zwischen den Scans."
    ∷ "cmp.warn.profile_differs" :> "Das technische Profil unterscheidet sich."
    ∷ "cmp.warn.policy_versions_differ" :> "Die Richtlinienversionen unterscheiden sich."
    ∷ "cmp.warn.incomplete_runs" :> "Einer der Scans ist unvollständig."
    ∷ "col.date" :> "Datum"
    ∷ "col.description" :> "Beschreibung"
    ∷ "col.duration" :> "Dauer"
    ∷ "col.name" :> "Name"
    ∷ "col.nonCompliant" :> "Nicht konform"
    ∷ "col.phase" :> "Phase"
    ∷ "col.si" :> "Informationssysteme"
    ∷ "col.status" :> "Status"
    ∷ "col.tags" :> "Tags"
    ∷ "col.type" :> "Typ"
    ∷ "confirm.cancelScan" :> "Diesen Scan abbrechen? Teilergebnisse bleiben erhalten."
    ∷ "confirm.delete" :> "Dieses Element löschen?"
    ∷ "dash.completed" :> "Abgeschlossen"
    ∷ "dash.compliant" :> "Konform"
    ∷ "dash.failed" :> "Fehlgeschlagen"
    ∷ "dash.nonCompliant" :> "Nicht konform"
    ∷ "dash.noScans" :> "Noch keine Scans."
    ∷ "dash.noTrend" :> "Noch nicht genug abgeschlossene Scans."
    ∷ "dash.noUpcoming" :> "Keine geplanten Scans."
    ∷ "dash.recent" :> "Letzte Scans"
    ∷ "dash.running" :> "In Arbeit"
    ∷ "dash.scope" :> "Umfang"
    ∷ "dash.scopeAll" :> "Alle Scans"
    ∷ "dash.scopeMine" :> "Meine Scans"
    ∷ "evo.sev.critical" :> "Kritisch"
    ∷ "evo.sev.high" :> "Hoch"
    ∷ "evo.sev.medium" :> "Mittel"
    ∷ "evo.sev.low" :> "Niedrig"
    ∷ "evo.title" :> "Entwicklung zwischen zwei Daten"
    ∷ "evo.from" :> "Von"
    ∷ "evo.to" :> "Bis"
    ∷ "evo.invalid" :> "Das Startdatum darf nicht nach dem Enddatum liegen."
    ∷ "evo.noRuns" :> "Kein abgeschlossener Scan dieser Scan-Definition bis zu diesem Datum."
    ∷ "evo.single" :> "Nur ein Scan im Zeitraum (am {date}): noch nichts zu vergleichen."
    ∷ "evo.open" :> "Detaillierten Vergleich öffnen"
    ∷ "evo.new" :> "Neu"
    ∷ "evo.fixed" :> "Behoben"
    ∷ "evo.persistent" :> "Bestehend"
    ∷ "evo.not_retested" :> "Nicht erneut getestet"
    ∷ "evo.bySeverity" :> "Befunde nach Schweregrad"
    ∷ "evo.severity" :> "Schweregrad"
    ∷ "evo.endpoints" :> "Endpunkte: +{added} / -{removed}"
    ∷ "evo.compliance" :> "Konformität: {improved} verbessert, {degraded} verschlechtert"
    ∷ "evo.certs" :> "{n} Zertifikatsänderung(en)"
    ∷ "evo.list.new" :> "Neue Befunde"
    ∷ "evo.list.fixed" :> "Behobene Befunde"
    ∷ "evo.endpointsN" :> "{n} Endpunkt(e)"
    ∷ "evo.series" :> "Befunde pro Scan (Vorkommen nach Schweregrad)"
    ∷ "evo.warn.scope_differs" :> "Die Ziele unterscheiden sich zwischen den beiden Scans."
    ∷ "evo.warn.profile_differs" :> "Das Scan-Profil unterscheidet sich zwischen den beiden Scans."
    ∷ "evo.warn.policy_versions_differ"
      :> "Die Richtlinienversionen unterscheiden sich zwischen den beiden Scans."
    ∷ "evo.warn.incomplete_runs"
      :> "Einer der beiden Scans ist unvollständig: Hosts wurden übersprungen."
    ∷ "dash.trend" :> "Konformität im Zeitverlauf"
    ∷ "dash.section.posture" :> "Sicherheit und Konformität"
    ∷ "dash.section.activity" :> "Scan-Aktivität"
    ∷ "dash.na" :> "Nicht verfügbar"
    ∷ "dash.notEvaluated" :> "Nicht bewertet"
    ∷ "dash.noData" :> "Starten Sie einen Scan, um die Konformität zu sehen."
    ∷ "dash.kpi.compliance" :> "TLS-Konformität"
    ∷ "dash.kpi.complianceHint" :> "{n} von {total} bewerteten Endpunkten konform"
    ∷ "dash.kpi.complianceTip"
      :> "Konforme Endpunkte ÷ (konform + nicht konform), jeweils auf dem letzten Ergebnis jedes eindeutigen Endpunkts. Endpunkte mit Fehler oder ohne Test werden separat gezeigt und nie als konform gezählt."
    ∷ "dash.kpi.unevaluated" :> "{n} nicht bewertet"
    ∷ "dash.kpi.noncompliant" :> "Nicht konforme Endpunkte"
    ∷ []
