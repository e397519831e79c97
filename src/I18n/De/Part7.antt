-- ===== src/I18n/De/Part7.antt =====
-- frontend/src/i18n/de.ts, lines 568 to 661.
use scan_tls.Common.{Text, List, [], ◌∷◌, ◌:>◌}

unfoldable pub de_7 : List (Text × Text)
de_7 =
    "target.kind.fqdn" :> "Hostname (FQDN)"
    ∷ "target.kind.ip" :> "IP-Adresse"
    ∷ "target.kind.cidr" :> "Subnetz (CIDR)"
    ∷ "target.valueHint.fqdn" :> "Zum Beispiel www.example.org"
    ∷ "target.valueHint.ip" :> "Zum Beispiel 192.0.2.10"
    ∷ "target.valueHint.cidr" :> "Zum Beispiel 192.0.2.0/24"
    ∷ "target.kind.mixed" :> "Gemischt (erkannt)"
    ∷ "target.values" :> "Ziele"
    ∷ "target.valuesHint" :> "FQDN, IP-Adresse oder CIDR-Netz. Mehrere möglich, eines pro Zeile."
    ∷ "target.multiHint"
      :> "{n} Ziele: Sie werden angelegt und in einer Gruppe mit dem eingegebenen Namen zusammengefasst."
    ∷ "target.valueRequired" :> "Geben Sie mindestens ein Ziel ein."
    ∷ "discover.title" :> "DNS-Erkennung"
    ∷ "discover.intro"
      :> "Ermittelt die Nameserver einer Domain und fragt jeden einmal nach einem Zonentransfer (AXFR) dieser Domain. Es wird nichts geraten oder durchprobiert. Ein Transfer wird normalerweise abgelehnt; ein akzeptierter Transfer ist selbst eine DNS-Schwäche."
    ∷ "discover.domain" :> "Domain"
    ∷ "discover.authorize" :> "Ich bestätige, dass ich berechtigt bin, diese Domain abzufragen."
    ∷ "discover.start" :> "Erkennung starten"
    ∷ "discover.running" :> "Erkennung läuft…"
    ∷ "discover.failed" :> "Die Erkennung ist fehlgeschlagen."
    ∷ "discover.transferOpen"
      :> "Ein Nameserver hat den Zonentransfer akzeptiert: Jeder kann diese Zone auflisten. DNS-Konfiguration korrigieren (AXFR auf Ihre Sekundärserver beschränken)."
    ∷ "discover.transferRefused"
      :> "Kein Nameserver hat einen Zonentransfer akzeptiert (normales, sicheres Verhalten). Namen selbst hinzufügen oder eine Liste importieren."
    ∷ "discover.ns" :> "Nameserver"
    ∷ "discover.hosts" :> "Gefundene Hostnamen ({n})"
    ∷ "discover.all" :> "Alle auswählen"
    ∷ "discover.none" :> "Keine auswählen"
    ∷ "discover.truncated" :> "Liste gekürzt."
    ∷ "discover.add" :> "{n} als Ziele hinzufügen"
    ∷ "discover.source" :> "DNS-Erkennung von {domain}"
    ∷ "discover.status.transferred" :> "Transfer akzeptiert"
    ∷ "discover.status.refused" :> "Abgelehnt"
    ∷ "discover.status.timeout" :> "Zeitüberschreitung"
    ∷ "discover.status.unreachable" :> "Nicht erreichbar"
    ∷ "discover.status.unresolved" :> "Adresse nicht gefunden"
    ∷ "discover.status.skipped" :> "Übersprungen (lokale Adresse)"
    ∷ "discover.status.error" :> "Fehler"
    ∷ "access.section" :> "API- und MCP-Zugang"
    ∷ "access.api.title" :> "Externe API"
    ∷ "access.mcp.title" :> "MCP-Server"
    ∷ "access.api.about"
      :> "Schreibgeschützte REST-API (/api/v1), um Scan-Ergebnisse mit eigenen Werkzeugen und einem persönlichen API-Schlüssel abzufragen."
    ∷ "access.mcp.about"
      :> "MCP-Server (/mcp), mit dem ein kompatibler KI-Assistent Scan-Ergebnisse schreibgeschützt und mit einem eigenen Schlüssel abfragen kann."
    ∷ "access.api.switchHint" :> "REST-API /api/v1, schreibgeschützt, Personal API Token."
    ∷ "access.mcp.switchHint" :> "MCP-Server /mcp, schreibgeschützt, eigener Schlüssel."
    ∷ "access.global" :> "Dienst (Administrator)"
    ∷ "access.individual" :> "Ihr Konto"
    ∷ "access.key" :> "Schlüssel"
    ∷ "access.expires" :> "Läuft ab"
    ∷ "access.lastUsed" :> "Zuletzt verwendet"
    ∷ "access.enabled" :> "Aktiviert"
    ∷ "access.disabled" :> "Deaktiviert"
    ∷ "access.allowed" :> "Berechtigt"
    ∷ "access.notAllowed" :> "Nicht berechtigt"
    ∷ "access.keyActive" :> "Aktiv"
    ∷ "access.keyNone" :> "Kein Schlüssel"
    ∷ "access.askAdmin"
      :> "Ihr Konto ist für diesen Dienst nicht berechtigt. Fragen Sie einen Administrator."
    ∷ "access.serviceOff" :> "Dieser Dienst ist derzeit vom Administrator deaktiviert."
    ∷ "access.generate" :> "Schlüssel erzeugen"
    ∷ "access.regenerate" :> "Neu erzeugen (widerruft den aktuellen Schlüssel)"
    ∷ "access.revoke" :> "Widerrufen"
    ∷ "access.confirmRevoke"
      :> "Diesen Schlüssel jetzt widerrufen? Anwendungen, die ihn nutzen, verlieren sofort den Zugriff."
    ∷ "access.howTo" :> "So verbinden Sie sich"
    ∷ "access.docsAt" :> "Dokumentation:"
    ∷ "access.mcpUrl" :> "URL des MCP-Servers:"
    ∷ "access.keyTitle" :> "Ihr neuer Schlüssel"
    ∷ "access.keyWarning"
      :> "Kopieren Sie diesen Schlüssel jetzt: Er wird nur einmal angezeigt und kann später nicht abgerufen werden. Halten Sie ihn geheim; er ist 90 Tage gültig."
    ∷ "access.copy" :> "Kopieren"
    ∷ "access.copied" :> "Kopiert"
    ∷ "access.adminTitle" :> "Externe Zugänge"
    ∷ "access.adminHint"
      :> "Beide Dienste sind standardmäßig aus. Das Ausschalten eines Dienstes setzt alle Schlüssel sofort aus; bestehende Schlüssel können weiter widerrufen werden. Benutzer müssen zusätzlich einzeln unter Benutzer berechtigt werden."
    ∷ "access.apiShort" :> "API"
    ∷ "access.mcpShort" :> "MCP"
    ∷ "target.kindMismatch" :> "Der Wert passt nicht zum gewählten Typ."
    ∷ "scans.group" :> "Gruppiert"
    ∷ "scans.flat" :> "Alle Ausführungen"
    ∷ "scans.runsCount" :> "{n} Ausführungen"
    ∷ "scans.rescan" :> "Erneut ausführen"
    ∷ "scans.history" :> "Verlauf"
    ∷ "scans.last" :> "Letzte Ausführung"
    ∷ "scans.trend" :> "ggü. vorher"
    ∷ "scans.search" :> "Scan suchen"
    ∷ "admin.trustStores" :> "Vertrauensstellen"
    ∷ "ts.subtitle"
      :> "Vertrauensspeicher mit den CA-Zertifikaten zur Prüfung von Zertifikaten privater PKIs. Ein Profil wählt die zu verwendenden Speicher."
    ∷ "ts.new" :> "Neuer Vertrauensspeicher"
    ∷ "ts.type" :> "Typ"
    ∷ "ts.builtin" :> "Öffentlich (integriert)"
    ∷ "ts.private" :> "Privat"
    ∷ "ts.certs" :> "CA-Zertifikate"
    ∷ "ts.version" :> "Version"
    ∷ "ts.updated" :> "Geändert"
    ∷ "ts.builtinHint"
      :> "Von Mozilla abgeleiteter öffentlicher Speicher, mit TLS Scan ausgeliefert. Hier nicht änderbar."
    ∷ "ts.empty"
      :> "Noch kein privater Vertrauensspeicher. Importieren Sie Ihre interne Root-CA, um Zertifikate einer privaten PKI zu prüfen."
    ∷ "ts.files" :> "CA-Zertifikatsdateien (.pem, .crt, .cer im PEM-Format)"
    ∷ "ts.filesHint"
      :> "Nur öffentliche CA-Zertifikate; mehrere pro Datei erlaubt. Private Schlüssel, PKCS#12/PFX und DER werden abgelehnt."
    ∷ "ts.anchor" :> "Root-CA (Vertrauensanker)"
    ∷ "ts.intermediate" :> "Zwischen-CA"
    ∷ "ts.intermediateHint"
      :> "Eine Zwischen-CA wird nie zum Vertrauensanker: Sie vervollständigt nur die Kette bis zu einer Root-CA desselben Speichers."
    ∷ []
