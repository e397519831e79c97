-- ===== src/I18n/De/Part1.antt =====
-- frontend/src/i18n/de.ts, lines 4 to 97.
use scan_tls.Common.{Text, List, [], ◌∷◌, ◌:>◌}

unfoldable pub de_1 : List (Text × Text)
de_1 =
    "action.add" :> "Hinzufügen"
    ∷ "action.cancel" :> "Abbrechen"
    ∷ "action.cancelScan" :> "Scan abbrechen"
    ∷ "action.close" :> "Schließen"
    ∷ "action.edit" :> "Bearbeiten"
    ∷ "action.new" :> "Neu"
    ∷ "action.run" :> "Starten"
    ∷ "action.report" :> "Bericht"
    ∷ "action.save" :> "Speichern"
    ∷ "action.search" :> "Suchen"
    ∷ "admin.activeRuns" :> "Aktive Scans"
    ∷ "admin.actor" :> "Benutzer oder Komponente"
    ∷ "admin.audit" :> "Audit-Protokoll"
    ∷ "admin.confirmReset" :> "Neues Einmalpasswort für diesen Benutzer erzeugen?"
    ∷ "admin.createUser" :> "Lokalen Benutzer anlegen"
    ∷ "admin.diagnostics" :> "Diagnose"
    ∷ "admin.disable" :> "Deaktivieren"
    ∷ "admin.enable" :> "Aktivieren"
    ∷ "admin.error" :> "Fehler"
    ∷ "admin.failedRuns" :> "Fehlgeschlagene oder teilweise Scans"
    ∷ "admin.lastLogin" :> "Letzte Anmeldung"
    ∷ "admin.limits" :> "Limits"
    ∷ "admin.outcome" :> "Ergebnis"
    ∷ "admin.resetPassword" :> "Passwort zurücksetzen"
    ∷ "admin.resource" :> "Ressource"
    ∷ "admin.retention" :> "Datenaufbewahrung (Tage)"
    ∷ "admin.role" :> "Rolle"
    ∷ "admin.saved" :> "Gespeichert."
    ∷ "admin.settings" :> "Einstellungen"
    ∷ "admin.smtpFrom" :> "Absenderadresse"
    ∷ "admin.smtpPasswordHint"
      :> "Das SMTP-Passwort wird aus der Umgebungsvariable TLS_SCAN_SMTP_PASSWORD(_FILE) gelesen und nie hier gespeichert."
    ∷ "admin.smtpUser" :> "Benutzername"
    ∷ "admin.source" :> "Quelle"
    ∷ "auth.title" :> "Authentifizierung"
    ∷ "auth.intro"
      :> "Wer sich anmelden kann und wie. Ein externer Anbieter gleichzeitig, plus lokale Konten. Die Rollen bleiben die von TLS Scan: nichts wird aus den Gruppen des Anbieters abgeleitet."
    ∷ "auth.active" :> "Aktive Anmeldung"
    ∷ "auth.localAlways" :> "lokale Konten funktionieren immer (Notzugang)"
    ∷ "auth.src.database" :> "hier konfiguriert"
    ∷ "auth.src.environment" :> "aus der Serverumgebung (TLS_SCAN_OIDC_*)"
    ∷ "auth.provider" :> "Anmeldeanbieter"
    ∷ "auth.p.local" :> "Nur lokale Konten"
    ∷ "auth.p.env" :> "Serverumgebung (bestehend)"
    ∷ "auth.p.entra" :> "Microsoft Entra ID (OpenID Connect)"
    ∷ "auth.p.google" :> "Google Workspace (OpenID Connect)"
    ∷ "auth.p.ldap" :> "LDAP / Active Directory (Verzeichnispasswort)"
    ∷ "auth.p.generic" :> "OpenID Connect"
    ∷ "auth.noneHint" :> "Nur lokale Konten können sich anmelden."
    ∷ "auth.redirectHint"
      :> "Registrieren Sie genau diese Weiterleitungs-URI (Typ Web) beim Anbieter:"
    ∷ "auth.entraHint"
      :> "Single-Tenant-Webanwendung mit Client-Secret. Konten anderer Tenants werden abgelehnt; Multi-Tenant-Endpunkte (common, organizations, consumers) werden nicht akzeptiert."
    ∷ "auth.googleHint"
      :> "OAuth-Client vom Typ Webanwendung. Nur Konten der aufgeführten Google-Workspace-Domains werden akzeptiert (geprüft am signierten hd-Claim, nicht am E-Mail-Suffix); private Google-Konten werden abgelehnt."
    ∷ "auth.ldapHint"
      :> "Anmeldung mit Verzeichnispasswort (kein Single Sign-on): Das Konto wird mit dem Dienstkonto gesucht, das Passwort dann per Bind als Benutzer geprüft. LDAPS oder StartTLS ist Pflicht, das Zertifikat wird immer validiert."
    ∷ "auth.tenant" :> "Tenant-ID"
    ∷ "auth.tenantHint" :> "Verzeichnis-(Tenant-)ID der App-Registrierung."
    ∷ "auth.clientId" :> "Client-ID"
    ∷ "auth.issuer" :> "Aussteller (optional)"
    ∷ "auth.issuerHint" :> "Leer = https://login.microsoftonline.com/<tenant>/v2.0"
    ∷ "auth.domains" :> "Erlaubte Workspace-Domains"
    ∷ "auth.domainsHint" :> "Eine pro Zeile."
    ∷ "auth.secretSet" :> "Secret gesetzt"
    ∷ "auth.secretMissing" :> "Secret fehlt"
    ∷ "auth.secretHint"
      :> "Das Secret wird nie hier gespeichert: Setzen Sie die Servervariable {variable} (oder {variable}_FILE)."
    ∷ "auth.ldap.name" :> "Verzeichnisname"
    ∷ "auth.ldap.server_url" :> "LDAP-URL (ldaps://…)"
    ∷ "auth.ldap.base_dn" :> "Base-DN"
    ∷ "auth.ldap.login_attribute" :> "Anmeldeattribut (uid, sAMAccountName…)"
    ∷ "auth.ldap.user_filter" :> "Benutzerfilter"
    ∷ "auth.ldap.bind_dn" :> "DN des Dienstkontos"
    ∷ "auth.ldap.email_attribute" :> "E-Mail-Attribut"
    ∷ "auth.ldap.name_attribute" :> "Anzeigenamen-Attribut"
    ∷ "auth.ldap.id_attribute" :> "Attribut für stabile Kennung (entryUUID, objectGUID)"
    ∷ "auth.ldap.starttls" :> "StartTLS verwenden (für ldap://-URLs)"
    ∷ "auth.ldap.ca" :> "Eigenes CA-Zertifikat (PEM)"
    ∷ "auth.ldap.caHint" :> "Nötig, wenn das Verzeichniszertifikat von einer internen CA stammt."
    ∷ "auth.autoProvision" :> "Erstanmeldung einer unbekannten Person"
    ∷ "auth.autoProvisionHint"
      :> "Standardmäßig restriktiv: freigegebene Konten unter Administration → Benutzer importieren."
    ∷ "auth.autoOff" :> "Ablehnen (Vorab-Anlage nötig)"
    ∷ "auth.autoOn" :> "Konto mit der Standardrolle anlegen"
    ∷ "auth.defaultRole" :> "Standardrolle angelegter Konten"
    ∷ "auth.defaultRoleHint" :> "Nie Administrator."
    ∷ "auth.test" :> "Konfiguration testen"
    ∷ "auth.unsaved" :> "Nicht gespeicherte Änderungen: vor dem Test speichern."
    ∷ "auth.userTest" :> "Benutzeranmeldung testen (optional)"
    ∷ "auth.userTestHint"
      :> "Läuft nur auf Klick: Das Passwort wird einmal verwendet, nie gespeichert oder protokolliert."
    ∷ "auth.userTestRun" :> "Diese Anmeldung testen"
    ∷ "auth.st.ok" :> "OK"
    ∷ "auth.st.fail" :> "Fehlgeschlagen"
    ∷ "auth.st.warn" :> "Warnung"
    ∷ "auth.st.info" :> "Hinweis"
    ∷ "auth.diag" :> "Letzte Anmeldediagnosen"
    ∷ "auth.diagNone" :> "Kein aktueller Fehler."
    ∷ "admin.authentication" :> "Authentifizierung"
    ∷ "admin.src.local" :> "Lokal"
    ∷ "admin.src.entra" :> "Entra ID"
    ∷ "admin.src.google" :> "Google Workspace"
    ∷ []
