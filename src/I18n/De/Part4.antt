-- ===== src/I18n/De/Part4.antt =====
-- frontend/src/i18n/de.ts, lines 286 to 379.
use scan_tls.Common.{Text, List, [], ◌∷◌, ◌:>◌}

unfoldable pub de_4 : List (Text × Text)
de_4 =
    "pol.hashes" :> "Erlaubte Signatur-Hashes"
    ∷ "pol.immutableHint"
      :> "Veröffentlichte Versionen werden nie geändert: Speichern erzeugt eine neue Entwurfsversion."
    ∷ "pol.importYaml" :> "YAML importieren"
    ∷ "pol.latest" :> "Neueste"
    ∷ "pol.newVersion" :> "Neue Version"
    ∷ "pol.policies" :> "Kryptografische Richtlinien"
    ∷ "pol.profiles" :> "Scan-Profile"
    ∷ "pol.publish" :> "Veröffentlichen"
    ∷ "pol.published" :> "Veröffentlicht"
    ∷ "pol.rsa" :> "Minimale RSA-Schlüssellänge (Bit)"
    ∷ "pol.subtitle"
      :> "Eine Richtlinie definiert, was zulässig ist; ein Profil definiert, wie geprüft wird."
    ∷ "pol.templates" :> "Berichtsvorlagen"
    ∷ "pol.versions" :> "Erlaubte TLS-Versionen"
    ∷ "pref.appearance" :> "Darstellung"
    ∷ "pref.dark" :> "Dunkel"
    ∷ "pref.light" :> "Hell"
    ∷ "pref.system" :> "System"
    ∷ "pref.display" :> "Anzeige"
    ∷ "pref.language" :> "Sprache"
    ∷ "pref.notifications" :> "E-Mail-Benachrichtigungen"
    ∷ "pref.ev.scan_completed" :> "Scan abgeschlossen"
    ∷ "pref.ev.scan_failed" :> "Scan fehlgeschlagen"
    ∷ "pref.ev.scan_cancelled" :> "Scan abgebrochen"
    ∷ "pref.palette" :> "Palette"
    ∷ "pref.password" :> "Passwort"
    ∷ "pref.passwordChanged" :> "Passwort geändert."
    ∷ "prof.crypto" :> "Krypto-Profil"
    ∷ "prof.dns" :> "DNS-Namen auflösen"
    ∷ "prof.expires" :> "Warnung vor Zertifikatsablauf (Tage)"
    ∷ "prof.ports" :> "Ports"
    ∷ "prof.portsHint" :> "fast, all oder eine Liste wie 443,8443,9000-9010"
    ∷ "prof.revocation" :> "Sperrstatus prüfen (OCSP/CRL)"
    ∷ "prof.tlsChecks" :> "Ergänzende TLS-Prüfungen"
    ∷ "prof.tlsChecksHint"
      :> "Zusätzliche, nicht destruktive Prüfungen. Sie werden neben den Ergebnissen ausgewiesen und ändern die Note nicht. Alles abwählen, um das bisherige Verhalten beizubehalten."
    ∷ "prof.addChecks" :> "Prüfungen hinzufügen"
    ∷ "tls.family.identity" :> "Identität und Zertifikat"
    ∷ "tls.family.handshake" :> "Aushandlung"
    ∷ "tls.family.groups" :> "Kryptografische Gruppen"
    ∷ "tls.check.hostname_san" :> "FQDN-/SAN-Identität"
    ∷ "tls.check.hostname_san.desc"
      :> "Das Zertifikat deckt den tatsächlich angefragten Namen ab (SAN DNS oder IP), unabhängig vom Vertrauen in die Kette."
    ∷ "tls.check.ocsp_stapling" :> "OCSP-Stapling"
    ∷ "tls.check.ocsp_stapling.desc"
      :> "Der Server liefert selbst eine gültige, aktuelle OCSP-Antwort im Handshake."
    ∷ "tls.check.tls_compression" :> "TLS-Kompression"
    ∷ "tls.check.tls_compression.desc"
      :> "Kompression auf TLS-Ebene wird nicht ausgehandelt (CRIME)."
    ∷ "tls.check.renegotiation" :> "Neuverhandlung"
    ∷ "tls.check.renegotiation.desc"
      :> "Sichere Neuverhandlung (RFC 5746) und Verhalten bei vom Client eingeleiteter Neuverhandlung."
    ∷ "tls.check.fallback_scsv" :> "TLS_FALLBACK_SCSV"
    ∷ "tls.check.fallback_scsv.desc"
      :> "Der Server lehnt eine herabgestufte Verbindung ab, die einen Fallback signalisiert."
    ∷ "tls.check.extended_master_secret" :> "Extended Master Secret"
    ∷ "tls.check.extended_master_secret.desc" :> "Unterstützung von RFC 7627 für TLS 1.2 und älter."
    ∷ "tls.check.ecdhe_groups" :> "ECDHE-Gruppen"
    ∷ "tls.check.ecdhe_groups.desc"
      :> "Elliptische-Kurven-Gruppen, deren Akzeptanz nachgewiesen ist (etwa 18 Verbindungen pro Endpunkt)."
    ∷ "tls.check.ffdhe_groups" :> "FFDHE-Gruppen und DH-Parameter"
    ∷ "tls.check.ffdhe_groups.desc"
      :> "Größe der Diffie-Hellman-Parameter und benannte FFDHE-Gruppen."
    ∷ "tls.family.sessions" :> "TLS-Sitzungen"
    ∷ "tls.family.authentication" :> "Authentifizierung"
    ∷ "tls.family.protocols" :> "Protokolle (STARTTLS)"
    ∷ "tls.check.session_resumption" :> "TLS-Sitzungswiederaufnahme"
    ∷ "tls.check.session_resumption.desc"
      :> "Ob der Server eine erneut angebotene Sitzung wieder aufnimmt (Sitzungs-ID, Ticket oder TLS-1.3-PSK). Eine normale Fähigkeit, kein Mangel."
    ∷ "tls.check.session_tickets" :> "TLS-Sitzungstickets"
    ∷ "tls.check.session_tickets.desc"
      :> "Ob Tickets ausgestellt und nutzbar sind, mit ihrer Gültigkeitsangabe. Tickets werden nie gespeichert."
    ∷ "tls.check.early_data" :> "TLS-1.3-Early-Data (0-RTT)"
    ∷ "tls.check.early_data.desc"
      :> "Ob der Server 0-RTT ankündigt. Die Annahme wird nur mit der optionalen vertieften Prüfung getestet, die eine Leerzeile sendet."
    ∷ "tls.check.client_auth" :> "Client-Authentifizierung (mTLS)"
    ∷ "tls.check.client_auth.desc"
      :> "Ob auf TLS-Ebene ein Clientzertifikat angefordert oder verlangt wird. Es wird kein Clientzertifikat verwendet."
    ∷ "tls.check.starttls_imap" :> "IMAP STARTTLS"
    ∷ "tls.check.starttls_imap.desc"
      :> "Der Dienst bestätigt IMAP und wechselt mit STARTTLS zu TLS (ohne Anmeldung)."
    ∷ "tls.check.starttls_pop3" :> "POP3 STLS"
    ∷ "tls.check.starttls_pop3.desc"
      :> "Der Dienst bestätigt POP3 und wechselt mit STLS zu TLS (ohne Anmeldung)."
    ∷ "tls.check.starttls_ldap" :> "LDAP StartTLS"
    ∷ "tls.check.starttls_ldap.desc"
      :> "Der Dienst bestätigt LDAP und akzeptiert die StartTLS-Operation (ohne Bind)."
    ∷ "tls.check.starttls_ftp" :> "FTP AUTH TLS"
    ∷ "tls.check.starttls_ftp.desc"
      :> "Der Dienst bestätigt FTP und akzeptiert AUTH TLS (ohne Anmeldung, ohne Übertragung)."
    ∷ "tls.check.starttls_postgres" :> "PostgreSQL SSLRequest"
    ∷ "tls.check.starttls_postgres.desc"
      :> "Der Server beantwortet den nativen SSLRequest und wechselt zu TLS."
    ∷ "tls.check.starttls_xmpp" :> "XMPP STARTTLS"
    ∷ "tls.check.starttls_xmpp.desc"
      :> "Der Server kündigt STARTTLS auf dem Client-Server-Stream an und akzeptiert es."
    ∷ "tls.check.starttls_xmpp_server" :> "XMPP-STARTTLS Server-zu-Server"
    ∷ "tls.check.starttls_xmpp_server.desc"
      :> "Der Server kündigt STARTTLS auf dem Server-zu-Server-Stream an und akzeptiert es (Port 5269)."
    ∷ "tls.opt.advanced" :> "Erweiterte Optionen"
    ∷ "tls.opt.attempts" :> "Wiederaufnahmeversuche"
    ∷ "tls.opt.ticket_wait_seconds" :> "Wartezeit auf Ticket (s)"
    ∷ "tls.opt.probe" :> "Vertiefte Prüfung (sendet eine Leerzeile als Early Data)"
    ∷ "tls.opt.ports" :> "Ports (kommagetrennt, leer = Standard)"
    ∷ "run.tlsChecks" :> "Ergänzende TLS-Prüfungen"
    ∷ "run.tlsChecksHint"
      :> "Getrennt ausgewiesen: Diese Ergebnisse ändern weder Note noch Konformitätsstatus noch Feststellungen."
    ∷ "run.tlsCheck" :> "Prüfung"
    ∷ "run.tlsResult" :> "Ergebnis"
    ∷ "prof.trust" :> "Zertifikatsketten validieren"
    ∷ "prof.workers" :> "Parallele Worker"
    ∷ "reports.none" :> "Keine Berichte verfügbar."
    ∷ "run.affected" :> "Betroffene Endpunkte"
    ∷ "run.cancelling" :> "Abbruch angefordert"
    ∷ "run.certificate" :> "Zertifikat"
    ∷ []
