-- ===== src/I18n/De/Part5.antt =====
-- frontend/src/i18n/de.ts, lines 380 to 473.
use scan_tls.Common.{Text, List, [], ◌∷◌, ◌:>◌}

unfoldable pub de_5 : List (Text × Text)
de_5 =
    "run.compliant" :> "Konforme Endpunkte"
    ∷ "run.critical" :> "Kritische Befunde"
    ∷ "run.endpoints" :> "Endpunkte"
    ∷ "run.expandHost" :> "Endpunkte dieses Hosts anzeigen"
    ∷ "run.endpointsCount" :> "{n} Endpunkte"
    ∷ "run.byHost" :> "Nach Host"
    ∷ "run.allEndpoints" :> "Alle Endpunkte"
    ∷ "run.endpointsTitle" :> "Endpunkte"
    ∷ "run.errors" :> "Fehler"
    ∷ "run.finding" :> "Befund"
    ∷ "run.findings" :> "Befunde"
    ∷ "run.grade" :> "Bewertung"
    ∷ "run.hosts" :> "Hosts"
    ∷ "run.nonCompliant" :> "Nicht konforme Endpunkte"
    ∷ "run.noTls"
      :> "Auf den gescannten Ports wurde kein TLS-Dienst gefunden. Das ist weder ein Erfolg noch ein Konformitätsergebnis."
    ∷ "run.notTested" :> "Nicht durchgeführte Prüfungen"
    ∷ "run.openHtml" :> "HTML-Bericht öffnen"
    ∷ "run.partial"
      :> "Dieser Scan ist unvollständig: Einige Ziele oder Prüfungen wurden nicht abgeschlossen."
    ∷ "run.severity" :> "Schweregrad"
    ∷ "run.skipped" :> "nicht verarbeitet"
    ∷ "scans.definitions" :> "Definitionen"
    ∷ "scans.none" :> "Keine Scans."
    ∷ "scans.onlyMine" :> "Nur meine"
    ∷ "scans.runs" :> "Ausführungen"
    ∷ "sched.active" :> "Aktiv"
    ∷ "sched.allSubtitle" :> "Alle Zeitpläne"
    ∷ "sched.at" :> "Datum und Uhrzeit"
    ∷ "sched.cron" :> "Cron-Ausdruck"
    ∷ "sched.cronHint" :> "5 Felder; höchstens eine Ausführung alle 5 Minuten."
    ∷ "sched.day" :> "Tag des Monats (1-28)"
    ∷ "sched.definition" :> "Scan-Definition"
    ∷ "sched.dueAt" :> "Fällig am"
    ∷ "sched.frequency" :> "Häufigkeit"
    ∷ "sched.history" :> "Verlauf"
    ∷ "sched.inactive" :> "Inaktiv"
    ∷ "sched.last" :> "Letzte Ausführung"
    ∷ "sched.mineSubtitle" :> "Ihre Zeitpläne"
    ∷ "sched.new" :> "Neuer Zeitplan"
    ∷ "sched.next" :> "Nächste Ausführung"
    ∷ "sched.none" :> "Keine Zeitpläne."
    ∷ "sched.outcome" :> "Ergebnis"
    ∷ "sched.outcome.triggered" :> "Ausgelöst"
    ∷ "sched.outcome.skipped_overlap" :> "Übersprungen (läuft noch)"
    ∷ "sched.outcome.skipped_late" :> "Verpasst (Dienst war aus)"
    ∷ "sched.outcome.error" :> "Fehler"
    ∷ "sched.reason" :> "Grund"
    ∷ "sched.time" :> "Uhrzeit"
    ∷ "sched.timezone" :> "Zeitzone"
    ∷ "sched.weekday" :> "Wochentag"
    ∷ "sched.once" :> "Einmal"
    ∷ "sched.daily" :> "Täglich"
    ∷ "sched.weekly" :> "Wöchentlich"
    ∷ "sched.monthly" :> "Monatlich"
    ∷ "si.empty" :> "Noch keine Informationssysteme."
    ∷ "si.none" :> "Keines (oberste Ebene)"
    ∷ "si.parent" :> "Übergeordnetes IS"
    ∷ "status.scheduled" :> "Geplant"
    ∷ "status.queued" :> "Wartend"
    ∷ "status.running" :> "Läuft"
    ∷ "status.completed" :> "Abgeschlossen"
    ∷ "status.partial" :> "Teilweise abgeschlossen"
    ∷ "status.failed" :> "Fehlgeschlagen"
    ∷ "status.cancelled" :> "Abgebrochen"
    ∷ "status.expired" :> "Abgelaufen"
    ∷ "tags.empty" :> "Noch keine Tags. Tags entstehen beim Hinzufügen zu einem Ziel."
    ∷ "target.edit" :> "Ziel bearbeiten"
    ∷ "target.export" :> "Exportieren"
    ∷ "target.import" :> "Importieren"
    ∷ "target.imported" :> "{created} angelegt, {existing} existierten bereits."
    ∷ "target.importHint" :> "Ein Ziel pro Zeile: Wert;Ports;Beschreibung"
    ∷ "target.new" :> "Neues Ziel"
    ∷ "target.none" :> "Keine Ziele."
    ∷ "target.ports" :> "Ports (optional)"
    ∷ "target.portsHint" :> "Überschreibt die Ports des Profils für dieses Ziel."
    ∷ "target.value" :> "Ziel"
    ∷ "target.valueHint" :> "FQDN, IP-Adresse oder CIDR"
    ∷ "targets.groups" :> "Zielgruppen"
    ∷ "targets.si" :> "Informationssysteme"
    ∷ "targets.tags" :> "Tags"
    ∷ "targets.targets" :> "Ziele"
    ∷ "tasks.failed" :> "Meine fehlgeschlagenen Scans"
    ∷ "tasks.none" :> "Nichts vorhanden."
    ∷ "tasks.reports" :> "Meine letzten Berichte"
    ∷ "tasks.running" :> "Meine laufenden Scans"
    ∷ "tasks.upcoming" :> "Meine nächsten Vorgänge"
    ∷ "tpl.formats" :> "Formate"
    ∷ "tpl.none" :> "Keine Vorlagen."
    ∷ "pref.ev.new_noncompliance" :> "Neue Abweichung festgestellt"
    ∷ "pref.ev.certificate_expiring" :> "Zertifikat abgelaufen oder läuft bald ab"
    ∷ "pref.ev.schedule_problem" :> "Zeitplan-Problem"
    ∷ "admin.connector" :> "Benachrichtigungs-Connector"
    ∷ "admin.connectorNone" :> "Keiner"
    ∷ "admin.graphTenant" :> "Tenant-ID"
    ∷ "admin.graphClient" :> "Client-(Anwendungs-)ID"
    ∷ []
