-- ===== src/I18n/De/Part3.antt =====
-- frontend/src/i18n/de.ts, lines 192 to 285.
use scan_tls.Common.{Text, List, [], ◌∷◌, ◌:>◌}

unfoldable pub de_3 : List (Text × Text)
de_3 =
    "dash.kpi.noncompliantHint" :> "Eindeutige Endpunkte, jeweils letztes Ergebnis"
    ∷ "dash.kpi.noncompliantNone" :> "Kein nicht konformer Endpunkt"
    ∷ "dash.kpi.findings" :> "Kritische und hohe Befunde"
    ∷ "dash.kpi.findingsHint" :> "{c} kritisch · {h} hoch"
    ∷ "dash.kpi.findingsTip"
      :> "Eindeutige Befunde (einer je Problemtyp) laut Scan-Engine auf den letzten Ergebnissen. Ein Vorkommen ist ein Befund an einem Endpunkt: hier {o} Vorkommen. Informative Befunde und Scan-Fehler werden nicht gezählt."
    ∷ "dash.kpi.certs" :> "Zertifikate im Blick"
    ∷ "dash.kpi.certsHint" :> "{e} abgelaufen · {s} laufen innerhalb von {d} Tagen ab"
    ∷ "dash.kpi.certsNone" :> "Keines innerhalb von {d} Tagen"
    ∷ "dash.kpi.certsTip"
      :> "Ein Zertifikat wird nur einmal gezählt, unabhängig von der Zahl der Endpunkte. Die Resttage stammen aus dem Scan, vermindert um die seither vergangene Zeit."
    ∷ "dash.kpi.certsList" :> "Nächste Abläufe"
    ∷ "dash.cert.expired" :> "seit {n} T. abgelaufen"
    ∷ "dash.cert.in" :> "in {n} T."
    ∷ "dash.breakdown" :> "Verteilung der Konformität"
    ∷ "dash.unevaluated" :> "Nicht bewertet oder teilweise"
    ∷ "dash.breakdownTotal" :> "{n} eindeutige Endpunkte"
    ∷ "dash.basis" :> "Letztes Ergebnis von {n} Scans"
    ∷ "dash.mixedPolicies"
      :> "Mehrere Richtlinien oder Richtlinienversionen werden hier kombiniert: {names}."
    ∷ "dash.trendDef" :> "Scan"
    ∷ "dash.trendRate" :> "{rate} % · {c} konform von {e} bewertet"
    ∷ "dash.trendNone" :> "Kein Endpunkt bewertet"
    ∷ "dash.trendTotal" :> "{n} Endpunkte im Scan"
    ∷ "dash.trendChanged"
      :> "Umfang, Profil oder Richtlinie seit dem vorigen Lauf geändert: nur eingeschränkt vergleichbar."
    ∷ "dash.trendChangedLegend" :> "Hohler Punkt: Bedingungen seit dem vorigen Lauf geändert"
    ∷ "dash.trendAxis" :> "Konformitätsquote"
    ∷ "dash.watch" :> "Vorrangige Beobachtungspunkte"
    ∷ "dash.watchEmpty" :> "Keine Auffälligkeit in den letzten Ergebnissen."
    ∷ "dash.watchEndpoint" :> "{n} Endpunkt"
    ∷ "dash.watchEndpoints" :> "{n} Endpunkte"
    ∷ "dash.watchCheck" :> "Zusatzprüfung"
    ∷ "dash.watchOpen" :> "Ergebnisse öffnen"
    ∷ "dash.upcoming" :> "Nächste Ausführungen"
    ∷ "def.defaultTemplate" :> "Standard (alle Formate)"
    ∷ "def.edit" :> "Scan-Definition bearbeiten"
    ∷ "def.groups" :> "Zielgruppen"
    ∷ "def.new" :> "Neuer Scan"
    ∷ "def.noGroups" :> "Noch keine Gruppen."
    ∷ "def.none" :> "Noch keine Scan-Definitionen."
    ∷ "def.noPolicies"
      :> "Keine veröffentlichte Richtlinie. Ein Operator muss eine veröffentlichen."
    ∷ "def.noTargets" :> "Noch keine Ziele. Legen Sie zuerst Ziele an."
    ∷ "def.policies" :> "Kryptografische Richtlinien"
    ∷ "def.policiesHint"
      :> "Es wird die neueste veröffentlichte Version verwendet; geplante Scans folgen neuen Versionen automatisch."
    ∷ "def.profile" :> "Scan-Profil"
    ∷ "def.targets" :> "Ziele"
    ∷ "def.template" :> "Berichtsvorlage"
    ∷ "filter.allSi" :> "Alle Informationssysteme"
    ∷ "filter.allStatuses" :> "Alle Status"
    ∷ "filter.allTags" :> "Alle Tags"
    ∷ "group.edit" :> "Gruppe bearbeiten"
    ∷ "group.new" :> "Neue Gruppe"
    ∷ "group.none" :> "Noch keine Gruppen."
    ∷ "hint.commaSeparated" :> "Durch Kommas getrennt"
    ∷ "login.eyebrow" :> "GESICHERTER ZUGANG"
    ∷ "login.title" :> "Anmeldung"
    ∷ "login.intro"
      :> "Melden Sie sich an, um TLS-Scans zu konfigurieren, zu starten und auszuwerten."
    ∷ "login.tagline" :> "Behalten Sie Ihre TLS-Exposition im Griff"
    ∷ "login.product" :> "TLS- & Kryptografie-Konformität"
    ∷ "login.vendor" :> "Ein Produkt von"
    ∷ "login.space" :> "TLS-Scan-Konsole"
    ∷ "login.foot" :> "Geschützter Bereich — mit SSO wird Ihr Passwort hier nie eingegeben."
    ∷ "login.changeTitle" :> "Neues Passwort wählen"
    ∷ "login.crashtest"
      :> "CrashTest-Umgebung: Demo-Konten und fiktive Daten. Nicht für die Produktion."
    ∷ "login.changeAndContinue" :> "Passwort ändern und fortfahren"
    ∷ "login.currentPassword" :> "Aktuelles Passwort"
    ∷ "login.invalid" :> "Ungültige Anmeldedaten."
    ∷ "login.mustChange" :> "Sie müssen ein neues Passwort wählen, bevor Sie fortfahren."
    ∷ "login.newPassword" :> "Neues Passwort"
    ∷ "login.password" :> "Passwort"
    ∷ "login.passwordHint" :> "Mindestens 12 Zeichen, kein gängiges Passwort."
    ∷ "login.sso" :> "Mit SSO anmelden"
    ∷ "login.submit" :> "Anmelden"
    ∷ "login.username" :> "Benutzername oder E-Mail"
    ∷ "nav.admin" :> "Administration"
    ∷ "nav.dashboard" :> "Dashboard"
    ∷ "nav.logout" :> "Abmelden"
    ∷ "nav.policies" :> "Profile"
    ∷ "nav.preferences" :> "Einstellungen"
    ∷ "nav.reports" :> "Berichte"
    ∷ "nav.scans" :> "Scans"
    ∷ "nav.schedules" :> "Zeitpläne"
    ∷ "nav.targets" :> "Ziele"
    ∷ "nav.tasks" :> "Meine Aufgaben"
    ∷ "phase." :> ""
    ∷ "phase.starting" :> "Start"
    ∷ "phase.pqc_preflight" :> "PQC-Voraussetzungen prüfen"
    ∷ "phase.discovery" :> "Port-Erkennung"
    ∷ "phase.tls_scan" :> "TLS-Analyse"
    ∷ "phase.grading" :> "Konformität bewerten"
    ∷ "phase.reporting" :> "Berichte erzeugen"
    ∷ "phase.done" :> "Fertig"
    ∷ "pol.archive" :> "Archivieren"
    ∷ "pol.archived" :> "Archiviert"
    ∷ "pol.ciphers" :> "Erlaubte Verschlüsselungsalgorithmen"
    ∷ "pol.draft" :> "Entwurf"
    ∷ "pol.duplicate" :> "Duplizieren"
    ∷ []
