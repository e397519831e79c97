-- ===== src/I18n/De/Part6.antt =====
-- frontend/src/i18n/de.ts, lines 474 to 567.
use scan_tls.Common.{Text, List, [], ◌∷◌, ◌:>◌}

unfoldable pub de_6 : List (Text × Text)
de_6 =
    "admin.graphSender" :> "Absender-Postfach"
    ∷ "admin.graphSecretHint"
      :> "Das Client-Secret wird aus TLS_SCAN_GRAPH_CLIENT_SECRET(_FILE) gelesen und nie hier gespeichert. Erfordert die Anwendungsberechtigung Mail.Send."
    ∷ "admin.testConnector" :> "Verbindung testen"
    ∷ "admin.directory" :> "Verzeichnis"
    ∷ "admin.imports" :> "Importe"
    ∷ "admin.gbTitle" :> "OpenVAS / Greenbone"
    ∷ "admin.gbHint"
      :> "GMP wird empfohlen. Der Greenbone-Server wird nie verändert und es wird kein Scan gestartet."
    ∷ "admin.gbHost" :> "Freigegebener Host"
    ∷ "admin.gbName" :> "Verbindungsname"
    ∷ "admin.gbPort" :> "GMP-Port"
    ∷ "admin.gbUsername" :> "GMP-Benutzer"
    ∷ "admin.gbTimeout" :> "Zeitlimit (Sekunden)"
    ∷ "admin.gbSecret"
      :> "Passwort und Zertifikate bleiben serverseitig (Umgebungsvariablen/geschützte Secret-Dateien)."
    ∷ "admin.gbSave" :> "Verbindung speichern"
    ∷ "admin.gbTest" :> "Verbindung testen"
    ∷ "admin.gbRetrieve" :> "Konfigurationen abrufen"
    ∷ "admin.gbXml" :> "GMP-XML-Dateien importieren"
    ∷ "admin.gbAnalyze" :> "Dateien analysieren"
    ∷ "admin.gbPreview" :> "Vorschau"
    ∷ "admin.gbApply" :> "In TLS Scan importieren"
    ∷ "admin.gbTargets" :> "Ziele"
    ∷ "admin.gbGroups" :> "Gruppen"
    ∷ "admin.gbSelectAll" :> "Alle Ziele auswählen"
    ∷ "admin.gbTag" :> "Das Tag „Import OpenVAS“ neuen Zielen hinzufügen"
    ∷ "admin.gbNoPassword" :> "GMP-Passwort ist serverseitig nicht konfiguriert"
    ∷ "admin.gbHistory" :> "Importverlauf"
    ∷ "admin.gbPending" :> "Abruf läuft…"
    ∷ "admin.gbTasks" :> "Tasks"
    ∷ "admin.gbTaskMapping" :> "Tasks → TLS-Scan-Definitionen"
    ∷ "admin.gbTaskHint"
      :> "Wählen Sie ausdrücklich ein vorhandenes veröffentlichtes TLS-Scan-Profil und eine oder mehrere Richtlinien. Es wird kein Greenbone-Scan gestartet."
    ∷ "admin.gbProfile" :> "TLS-Scan-Profil"
    ∷ "admin.gbPolicies" :> "TLS-Scan-Richtlinien"
    ∷ "admin.gbTcpPorts" :> "TCP-Ports"
    ∷ "admin.gbScanConfigs" :> "Scan-Konfigurationen"
    ∷ "admin.gbSourceTags" :> "Greenbone-Tags"
    ∷ "admin.gbSchedulesInactive" :> "inaktiv / informativ"
    ∷ "admin.gbMissingTarget" :> "Referenziertes Ziel fehlt"
    ∷ "admin.gbImportResult" :> "Ziele erstellt"
    ∷ "admin.gbDefinitionsResult" :> "Definitionen erstellt"
    ∷ "admin.gbDryRunText" :> "keine Änderungen"
    ∷ "admin.gbConfigRef" :> "Konfiguration"
    ∷ "admin.importFromDirectory" :> "Konten aus dem Verzeichnis importieren"
    ∷ "admin.dirImportHint"
      :> "Suchen Sie Konten, wählen Sie ihre Rolle und importieren Sie nur die von Ihnen freigegebenen Personen. Danach können sie sich anmelden."
    ∷ "admin.dirConfigureFirst"
      :> "Konfigurieren Sie zuerst eine Suchquelle unter Administration → Verzeichnis."
    ∷ "admin.dirImportInUsers"
      :> "Konten suchen und importieren Sie unter Administration → Benutzer."
    ∷ "admin.directoryHint"
      :> "Schreibgeschützte Suche, um Personen mit einer Rolle vorab anzulegen. Die Anmeldung bleibt bei SSO / lokalen Konten."
    ∷ "admin.dirKind" :> "Verzeichnistyp"
    ∷ "admin.ldapUrl" :> "Server-URL (ldap:// oder ldaps://)"
    ∷ "admin.ldapBindDn" :> "Bind-DN (Konto mit Leserechten)"
    ∷ "admin.ldapBase" :> "Basis-DN"
    ∷ "admin.ldapFilter" :> "Benutzerfilter"
    ∷ "admin.ldapVerify" :> "Serverzertifikat prüfen"
    ∷ "admin.ldapStarttls" :> "StartTLS verwenden (für ldap://-Adressen)"
    ∷ "admin.ldapCA" :> "Eigenes CA-Zertifikat (PEM, optional)"
    ∷ "admin.ldapPasswordHint"
      :> "Das Bind-Passwort wird aus TLS_SCAN_LDAP_BIND_PASSWORD(_FILE) gelesen."
    ∷ "admin.entraPasswordHint"
      :> "Das Client-Secret wird aus TLS_SCAN_DIRECTORY_CLIENT_SECRET(_FILE) gelesen. Erfordert die Anwendungsberechtigung User.Read.All."
    ∷ "admin.dirSearch" :> "Person suchen (Name oder E-Mail)"
    ∷ "admin.dirAdd" :> "Mit Rolle hinzufügen"
    ∷ "admin.dirExists" :> "Hat bereits ein Konto"
    ∷ "tpl.org" :> "Name der Organisation (Titelseite)"
    ∷ "tpl.accent" :> "Akzentfarbe"
    ∷ "tpl.logo" :> "Logo (PNG, JPEG oder SVG, max. 150 KB)"
    ∷ "tpl.brandHint"
      :> "Nur auf den HTML-Bericht angewendet; Sprache und Abschnitte des Berichts stammen vom Engine."
    ∷ "nav.section.workspace" :> "Mein Bereich"
    ∷ "nav.section.scanning" :> "Analyse"
    ∷ "nav.section.results" :> "Ergebnisse"
    ∷ "nav.section.admin" :> "Administration"
    ∷ "nav.openMenu" :> "Menü öffnen"
    ∷ "brand.tagline" :> "TLS-Konformität"
    ∷ "brand.signedInAs" :> "Angemeldet als {role}"
    ∷ "menu.account" :> "Konto und Einstellungen"
    ∷ "menu.settings" :> "Einstellungen"
    ∷ "menu.profile" :> "Profil"
    ∷ "theme.blue" :> "Blue"
    ∷ "theme.blue.sub" :> "Das LCIT-Standardblau"
    ∷ "theme.violet" :> "Violet"
    ∷ "theme.violet.sub" :> "Die LCIT-Anmeldepalette"
    ∷ "theme.aurora" :> "Aurora"
    ∷ "theme.aurora.sub" :> "Indigo, das ursprüngliche Design"
    ∷ "theme.azure" :> "Azure"
    ∷ "theme.azure.sub" :> "Himmelblau als Akzent"
    ∷ "theme.studio" :> "Studio"
    ∷ "theme.studio.sub" :> "Fast einfarbig, kompakt"
    ∷ "state.loading" :> "Wird geladen …"
    ∷ "table.filter" :> "Filtern"
    ∷ "table.selectAll" :> "Alle wählen"
    ∷ "table.clear" :> "Leeren"
    ∷ "table.reset" :> "Zurücksetzen"
    ∷ "table.count" :> "{shown} von {total}"
    ∷ "confirm.deleteScan"
      :> "Diesen Scan und seine Berichte löschen? Das kann nicht rückgängig gemacht werden."
    ∷ "action.delete" :> "Löschen"
    ∷ "target.name" :> "Name"
    ∷ "target.nameHint" :> "Eine leicht erkennbare Bezeichnung, z. B. „Öffentliche Website“."
    ∷ "target.type" :> "Typ"
    ∷ []
