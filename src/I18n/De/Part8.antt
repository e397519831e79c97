-- ===== src/I18n/De/Part8.antt =====
-- frontend/src/i18n/de.ts, lines 662 to 755.
use scan_tls.Common.{Text, List, [], ◌∷◌, ◌:>◌}

unfoldable pub de_8 : List (Text × Text)
de_8 =
    "ts.subject" :> "Subjekt"
    ∷ "ts.issuer" :> "Aussteller"
    ∷ "ts.serial" :> "Seriennummer"
    ∷ "ts.validity" :> "Gültigkeit"
    ∷ "ts.key" :> "Schlüssel"
    ∷ "ts.signature" :> "Signaturalgorithmus"
    ∷ "ts.fingerprint" :> "SHA-256-Fingerabdruck"
    ∷ "ts.basic" :> "Basic Constraints"
    ∷ "ts.keyUsage" :> "Key Usage"
    ∷ "ts.expired" :> "Abgelaufen"
    ∷ "ts.expiresIn" :> "Läuft in {days} T ab"
    ∷ "ts.duplicate" :> "Duplikat"
    ∷ "ts.invalid" :> "Abgelehnt"
    ∷ "ts.create" :> "Erstellen und importieren"
    ∷ "ts.publish" :> "Neue Version veröffentlichen"
    ∷ "ts.modeAdd" :> "Zum aktuellen Inhalt hinzufügen"
    ∷ "ts.modeReplace" :> "Gesamten Inhalt ersetzen"
    ∷ "ts.comment" :> "Kommentar"
    ∷ "ts.versions" :> "Versionen"
    ∷ "ts.profiles" :> "Profile mit diesem Speicher"
    ∷ "ts.noProfile" :> "Kein Profil verwendet diesen Speicher."
    ∷ "ts.scansUsing" :> "{n} Scan(s) haben diesen Speicher verwendet."
    ∷ "ts.confirmPublish"
      :> "Neue Version veröffentlichen? Bereits ausgeführte Scans behalten ihre Version; neue Scans verwenden diese."
    ∷ "ts.confirmDeactivate"
      :> "Diesen Speicher deaktivieren? Profile, die ihn auswählen, können keine Scans starten, bis er reaktiviert wird."
    ∷ "ts.confirmDelete"
      :> "Diesen Speicher endgültig löschen? Er wird von keinem Profil oder Scan referenziert."
    ∷ "ts.confirmRemove"
      :> "Dieses Zertifikat entfernen? Eine neue Version ohne es wird veröffentlicht; ältere Versionen behalten es."
    ∷ "ts.remove" :> "Entfernen"
    ∷ "ts.delete" :> "Löschen"
    ∷ "ts.noFile" :> "Wählen Sie mindestens eine Datei."
    ∷ "ts.preview" :> "Vorschau"
    ∷ "ts.details" :> "Details"
    ∷ "ts.hasExpired" :> "enthält ein abgelaufenes Zertifikat"
    ∷ "ts.inactive" :> "inaktiv"
    ∷ "ts.publicName" :> "Öffentliche Stellen (integriert)"
    ∷ "prof.trustPublic" :> "Integrierte öffentliche Stellen"
    ∷ "prof.trustPrivate" :> "Private Vertrauensspeicher"
    ∷ "prof.trustNone"
      :> "Kein privater Speicher verfügbar. Ein Administrator kann einen unter Administration > Vertrauensstellen importieren."
    ∷ "prof.trustStoreInfo" :> "v{version} · {count} Zertifikat(e)"
    ∷ "run.pkiTitle" :> "PKI-Vertrauen"
    ∷ "run.pkiHint"
      :> "Das Kettenurteil sagt nur, ob die Kette zu einer für diesen Scan gewählten Stelle führt. Es sagt nicht, dass der Name passt (FQDN/SAN), das Zertifikat noch gültig oder nicht widerrufen ist: Diese Prüfungen haben eigene Spalten."
    ∷ "run.pkiStores" :> "Von diesem Scan verwendete Vertrauensspeicher"
    ∷ "run.pkiTrust" :> "Kettenurteil"
    ∷ "run.pkiBy" :> "Validiert durch"
    ∷ "run.pkiAnchor" :> "Vertrauensstelle"
    ∷ "run.pkiReason" :> "Grund"
    ∷ "run.pkiName" :> "Name (FQDN/SAN)"
    ∷ "run.pkiRevocation" :> "Widerruf"
    ∷ "run.pkiCert" :> "Zertifikat"
    ∷ "run.pkiNotTested" :> "Nicht geprüft"
    ∷ "pki.PUBLIC_TRUSTED" :> "Öffentliche Stelle"
    ∷ "pki.PRIVATE_TRUSTED" :> "Private Stelle"
    ∷ "pki.UNTRUSTED" :> "Nicht vertrauenswürdig"
    ∷ "pki.NOT_TESTED" :> "Nicht geprüft"
    ∷ "pki.ERROR" :> "Fehler"
    ∷ "dd.intro"
      :> "Findet die Namen einer Domain mit mehreren unabhängigen Methoden, vergleicht sie mit Ihren Zielen und erlaubt, Ziele in einem Vorgang hinzuzufügen oder anzureichern. Nichts wird gescannt und nichts ändert sich ohne Ihre Bestätigung."
    ∷ "dd.step.config" :> "Konfiguration"
    ∷ "dd.step.run" :> "Erkennung"
    ∷ "dd.step.results" :> "Ergebnisse"
    ∷ "dd.step.review" :> "Hinzufügen / Anreichern"
    ∷ "dd.mode" :> "Modus"
    ∷ "dd.mode.fast" :> "Schnell"
    ∷ "dd.mode.advanced" :> "Erweitert"
    ∷ "dd.mode.fastHint"
      :> "Schnelle Antwort mit guter Abdeckung: DNS-Einträge, Zonentransfer-Versuch, kurzes Wörterbuch und Certificate Transparency für öffentliche Domains."
    ∷ "dd.methods" :> "Methoden"
    ∷ "dd.m.dns" :> "DNS-Einträge (A, AAAA, NS, MX, SRV)"
    ∷ "dd.m.axfr" :> "Zonentransfer (AXFR)"
    ∷ "dd.m.dictionary" :> "Übliche Subdomains (Wörterbuch)"
    ∷ "dd.m.ct" :> "Certificate Transparency (nur öffentliche Domains)"
    ∷ "dd.m.reverse" :> "Reverse-DNS (PTR)"
    ∷ "dd.ctOff" :> "Vom Administrator deaktiviert."
    ∷ "dd.options" :> "Erweiterte Optionen"
    ∷ "dd.dnsServer" :> "Abzufragender DNS-Server"
    ∷ "dd.dnsSystem" :> "Auf dem Worker konfigurierter Resolver"
    ∷ "dd.dnsNone"
      :> "Kein interner DNS-Server deklariert. Ein Administrator kann ihn unter Administration > Einstellungen deklarieren."
    ∷ "dd.axfrServers" :> "Zonentransfer zusätzlich versuchen von"
    ∷ "dd.dictionary" :> "Wörterbuch"
    ∷ "dd.dict.small" :> "Kurz (schnell)"
    ∷ "dd.dict.extended" :> "Erweitert"
    ∷ "dd.dict.custom" :> "Benutzerdefiniert"
    ∷ "dd.customWords" :> "Ein Name (Label) pro Zeile"
    ∷ "dd.reverse" :> "IP-Adressen oder Netze für Reverse-Lookup (max. 256 Adressen)"
    ∷ "dd.timeout" :> "Timeout je Abfrage (s)"
    ∷ "dd.concurrency" :> "Parallele Abfragen"
    ∷ "dd.start" :> "Erkennung starten"
    ∷ "dd.authorize"
      :> "Ich bestätige, dass ich diese Domain und die gewählten DNS-Server abfragen darf."
    ∷ "dd.running" :> "Erkennung läuft"
    ∷ "dd.queued" :> "Warten auf den Worker…"
    ∷ "dd.names" :> "{n} eindeutige(r) Name(n)"
    ∷ "dd.queries" :> "{n} Abfragen"
    ∷ "dd.cancel" :> "Erkennung abbrechen"
    ∷ "dd.partialNote" :> "Die Erkennung wurde unterbrochen: Die Ergebnisse sind unvollständig."
    ∷ "dd.m.status.pending" :> "Wartet"
    ∷ "dd.m.status.running" :> "Läuft"
    ∷ "dd.m.status.done" :> "Fertig"
    ∷ []
