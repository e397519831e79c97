-- ===== src/I18n/De/Part9.antt =====
-- frontend/src/i18n/de.ts, lines 756 to 849.
use scan_tls.Common.{Text, List, [], ◌∷◌, ◌:>◌}

unfoldable pub de_9 : List (Text × Text)
de_9 =
    "dd.m.status.partial" :> "Teilweise"
    ∷ "dd.m.status.failed" :> "Fehlgeschlagen"
    ∷ "dd.m.status.skipped" :> "Übersprungen"
    ∷ "dd.axfrServersTitle" :> "Zonentransfer je Server"
    ∷ "dd.secOpen"
      :> "Ein öffentlicher autoritativer Server hat den Zonentransfer erlaubt: Jeder kann die Zone auflisten. Das ist eine DNS-Exposition, kein TLS-Ergebnis."
    ∷ "dd.xfr.transferred" :> "Transfer erlaubt"
    ∷ "dd.xfr.refused" :> "Abgelehnt (normal)"
    ∷ "dd.xfr.timeout" :> "Zeitüberschreitung"
    ∷ "dd.xfr.unreachable" :> "Nicht erreichbar"
    ∷ "dd.xfr.unresolved" :> "Adresse nicht gefunden"
    ∷ "dd.xfr.skipped" :> "Übersprungen (lokale Adresse)"
    ∷ "dd.xfr.too_large" :> "Zu groß, abgebrochen"
    ∷ "dd.xfr.error" :> "Fehler"
    ∷ "dd.inv.NEW" :> "Neu"
    ∷ "dd.inv.EXISTING" :> "Vorhanden"
    ∷ "dd.inv.ENRICHABLE" :> "Anzureichern"
    ∷ "dd.inv.CHANGED" :> "Geändert"
    ∷ "dd.inv.OUT_OF_SCOPE" :> "Außerhalb der Domain"
    ∷ "dd.all" :> "Alle"
    ∷ "dd.search" :> "Namen oder Adresse suchen"
    ∷ "dd.source" :> "Quelle"
    ∷ "dd.inventory" :> "Inventar"
    ∷ "dd.fqdn" :> "Name (FQDN)"
    ∷ "dd.ip" :> "Adressen"
    ∷ "dd.type" :> "Typ"
    ∷ "dd.select" :> "Auswahl"
    ∷ "dd.selectNew" :> "Neue auswählen"
    ∷ "dd.selectEnrich" :> "Anreicherbare auswählen"
    ∷ "dd.selectNone" :> "Auswahl leeren"
    ∷ "dd.selected" :> "{n} ausgewählt"
    ∷ "dd.of" :> "{shown} von {total}"
    ∷ "dd.prev" :> "Zurück"
    ∷ "dd.next" :> "Weiter"
    ∷ "dd.wildcard" :> "Wildcard"
    ∷ "dd.historical" :> "historisch (löst nicht auf)"
    ∷ "dd.ptrMismatch" :> "PTR weicht vom Forward-DNS ab"
    ∷ "dd.ambiguous" :> "Mehrere Ziele: wählen"
    ∷ "dd.choose" :> "Ziel wählen"
    ∷ "dd.review" :> "Zusammenfassung"
    ∷ "dd.continue" :> "Auswahl prüfen"
    ∷ "dd.back" :> "Zurück"
    ∷ "dd.ports" :> "Ports neuer Ziele (leer = Profil-Ports)"
    ∷ "dd.group" :> "Gruppe"
    ∷ "dd.groupNone" :> "Keine Gruppe"
    ∷ "dd.groupNew" :> "Neue Gruppe erstellen…"
    ∷ "dd.groupName" :> "Name der neuen Gruppe"
    ∷ "dd.confirmBusiness"
      :> "Tags, SI und Gruppe auch auf bereits vorhandene Ziele anwenden ({n}). Nichts bereits Eingetragenes wird ersetzt; es sind Ergänzungen."
    ∷ "dd.willCreate" :> "{n} neue(s) Ziel(e) werden erstellt"
    ∷ "dd.willReuse" :> "{n} vorhandene(s) Ziel(e) behalten"
    ∷ "dd.willEnrich" :> "{n} Ziel(e) mit DNS-Beobachtungen angereichert"
    ∷ "dd.willSkip" :> "{n} nicht verarbeitet"
    ∷ "dd.cov.title" :> "Scan-Abdeckung"
    ∷ "dd.cov.col" :> "Schon gescannt?"
    ∷ "dd.cov.summary"
      :> "{covered} Name(n) bereits von einem Scan abgedeckt, {recent} in den letzten {days} Tagen gescannt: bei Sammelauswahlen standardmäßig abgewählt."
    ∷ "dd.cov.include" :> "Bereits abgedeckte Namen in Sammelauswahlen einbeziehen"
    ∷ "dd.cov.covered" :> "Abgedeckt"
    ∷ "dd.cov.via.target" :> "direktes Ziel"
    ∷ "dd.cov.via.group" :> "über Gruppe {group}"
    ∷ "dd.cov.via.address" :> "über {group}"
    ∷ "dd.cov.scheduled" :> "geplant"
    ∷ "dd.cov.recent" :> "Kürzlich gescannt"
    ∷ "dd.cov.shared" :> "Gleiche Adresse wie {value}"
    ∷ "dd.scan" :> "Scan"
    ∷ "dd.scan.none" :> "Scans nicht ändern"
    ∷ "dd.scan.existing" :> "Gruppe zu bestehenden Scans hinzufügen"
    ∷ "dd.scan.new" :> "Neuen Scan für diese Gruppe erstellen"
    ∷ "dd.scan.noDefinitions" :> "Kein Scan definiert."
    ∷ "dd.scan.chooseProfile" :> "Profil wählen"
    ∷ "dd.scan.name" :> "Scan-Name"
    ∷ "dd.scan.profile" :> "Profil"
    ∷ "dd.scan.policies" :> "Richtlinien"
    ∷ "dd.scan.scheduled" :> "geplant: die neuen Namen werden beim nächsten Lauf gescannt"
    ∷ "dd.scan.plan.add_group" :> "Die Gruppe wird zum Scan „{name}“ hinzugefügt"
    ∷ "dd.scan.plan.already" :> "Der Scan „{name}“ analysiert diese Gruppe bereits"
    ∷ "dd.scan.plan.create" :> "Der Scan „{name}“ wird erstellt (nicht gestartet)"
    ∷ "dd.noLaunch" :> "Es wird kein Scan gestartet: Sie starten ihn selbst unter Scans."
    ∷ "dd.defaultGroup" :> "Erkennung"
    ∷ "dd.defaultScan" :> "Scan"
    ∷ "dd.settingsRecent" :> "Kürzlicher Scan (Tage)"
    ∷ "dd.settingsRecentHint"
      :> "Ein innerhalb dieser Tage gescannter Name wird markiert und beim Import standardmäßig abgewählt."
    ∷ "dd.noScan" :> "Es wird kein Scan gestartet und keine Scan-Definition geändert."
    ∷ "dd.apply" :> "Ziele hinzufügen / anreichern"
    ∷ "dd.done"
      :> "Fertig: {create} erstellt, {reuse} behalten, {enrich} angereichert, {skipped} nicht verarbeitet."
    ∷ "dd.sum.found" :> "{n} Host(s) entdeckt"
    ∷ "dd.addNew" :> "Neue Ziele hinzufügen"
    ∷ "dd.addSelection" :> "Auswahl hinzufügen / anreichern"
    ∷ "dd.addNew.none" :> "Keine neuen Ziele zum Hinzufügen."
    ∷ "dd.tag.option" :> "Ziele mit „{tag}“ markieren"
    ∷ "dd.tag.hint"
      :> "Ein praktischer Filter, kein Herkunftsnachweis: Jedes Ziel behält Methode, Domain und Datum der Erkennung. Ein vorhandenes Ziel erhält das Tag erst nach Ihrer Bestätigung."
    ∷ "dd.group.proposedNew" :> "{name} (Vorschlag, wird erstellt)"
    ∷ "dd.group.proposedExisting" :> "{name} (Vorschlag, vorhandene Gruppe, wird wiederverwendet)"
    ∷ "dd.group.hint"
      :> "Eine Gruppe pro Domain, ohne Datum: Eine erneute Erkennung füllt dieselbe Gruppe."
    ∷ "dd.adv.scans" :> "Erweiterte Optionen — Scans"
    ∷ "dd.sum.known" :> "{n} bereits in Targets, unverändert"
    ∷ []
