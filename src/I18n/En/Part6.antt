-- ===== src/I18n/En/Part6.antt =====
-- frontend/src/i18n/en.ts, lines 473 to 566.
use scan_tls.Common.{Text, List, [], ◌∷◌, ◌:>◌}

unfoldable pub en_6 : List (Text × Text)
en_6 =
    "admin.graphSender" :> "Sender mailbox"
    ∷ "admin.graphSecretHint"
      :> "The client secret is read from TLS_SCAN_GRAPH_CLIENT_SECRET(_FILE), never stored here. Needs the application permission Mail.Send."
    ∷ "admin.testConnector" :> "Test connection"
    ∷ "admin.directory" :> "Directory"
    ∷ "admin.imports" :> "Imports"
    ∷ "admin.gbTitle" :> "OpenVAS / Greenbone"
    ∷ "admin.gbHint"
      :> "GMP is recommended. The Greenbone server is never modified and no scan is launched."
    ∷ "admin.gbHost" :> "Allowed host"
    ∷ "admin.gbName" :> "Connection name"
    ∷ "admin.gbPort" :> "GMP port"
    ∷ "admin.gbUsername" :> "GMP user"
    ∷ "admin.gbTimeout" :> "Timeout (seconds)"
    ∷ "admin.gbSecret"
      :> "Password and certificates stay server-side (environment/protected secret files)."
    ∷ "admin.gbSave" :> "Save connection"
    ∷ "admin.gbTest" :> "Test connection"
    ∷ "admin.gbRetrieve" :> "Retrieve configurations"
    ∷ "admin.gbXml" :> "Import GMP XML files"
    ∷ "admin.gbAnalyze" :> "Analyze files"
    ∷ "admin.gbPreview" :> "Preview"
    ∷ "admin.gbApply" :> "Import into TLS Scan"
    ∷ "admin.gbTargets" :> "Targets"
    ∷ "admin.gbGroups" :> "Groups"
    ∷ "admin.gbSelectAll" :> "Select all targets"
    ∷ "admin.gbTag" :> "Add the “Import OpenVAS” tag to new targets"
    ∷ "admin.gbNoPassword" :> "GMP password is not configured server-side"
    ∷ "admin.gbHistory" :> "Import history"
    ∷ "admin.gbPending" :> "Retrieval in progress…"
    ∷ "admin.gbTasks" :> "Tasks"
    ∷ "admin.gbTaskMapping" :> "Tasks → TLS Scan definitions"
    ∷ "admin.gbTaskHint"
      :> "Explicitly select an existing published TLS Scan profile and one or more policies. No Greenbone scan is launched."
    ∷ "admin.gbProfile" :> "TLS Scan profile"
    ∷ "admin.gbPolicies" :> "TLS Scan policies"
    ∷ "admin.gbTcpPorts" :> "TCP ports"
    ∷ "admin.gbScanConfigs" :> "Scan configurations"
    ∷ "admin.gbSourceTags" :> "Greenbone tags"
    ∷ "admin.gbSchedulesInactive" :> "inactive / informational"
    ∷ "admin.gbMissingTarget" :> "Referenced Target is missing"
    ∷ "admin.gbImportResult" :> "Targets created"
    ∷ "admin.gbDefinitionsResult" :> "definitions created"
    ∷ "admin.gbDryRunText" :> "no changes applied"
    ∷ "admin.gbConfigRef" :> "configuration"
    ∷ "admin.importFromDirectory" :> "Import accounts from directory"
    ∷ "admin.dirImportHint"
      :> "Search for accounts, choose their role and import only the people you authorize. They can sign in after they have been imported."
    ∷ "admin.dirConfigureFirst" :> "Configure a search source first in Administration → Directory."
    ∷ "admin.dirImportInUsers" :> "Search for and import accounts in Administration → Users."
    ∷ "admin.directoryHint"
      :> "Read-only lookup to pre-provision people with a role. Sign-in itself stays with SSO / local accounts."
    ∷ "admin.dirKind" :> "Directory type"
    ∷ "admin.ldapUrl" :> "Server URL (ldap:// or ldaps://)"
    ∷ "admin.ldapBindDn" :> "Bind DN (read-only account)"
    ∷ "admin.ldapBase" :> "Base DN"
    ∷ "admin.ldapFilter" :> "User filter"
    ∷ "admin.ldapVerify" :> "Verify the server certificate"
    ∷ "admin.ldapStarttls" :> "Use StartTLS (for ldap:// URLs)"
    ∷ "admin.ldapCA" :> "Custom CA certificate (PEM, optional)"
    ∷ "admin.ldapPasswordHint"
      :> "The bind password is read from TLS_SCAN_LDAP_BIND_PASSWORD(_FILE)."
    ∷ "admin.entraPasswordHint"
      :> "The client secret is read from TLS_SCAN_DIRECTORY_CLIENT_SECRET(_FILE). Needs the application permission User.Read.All."
    ∷ "admin.dirSearch" :> "Search a person (name or e-mail)"
    ∷ "admin.dirAdd" :> "Add with role"
    ∷ "admin.dirExists" :> "Already has an account"
    ∷ "tpl.org" :> "Organisation name (cover page)"
    ∷ "tpl.accent" :> "Accent colour"
    ∷ "tpl.logo" :> "Logo (PNG, JPEG or SVG, max 150 KB)"
    ∷ "tpl.brandHint"
      :> "Applied to the HTML report only; report language and sections are those of the engine."
    ∷ "nav.section.workspace" :> "Workspace"
    ∷ "nav.section.scanning" :> "Scanning"
    ∷ "nav.section.results" :> "Results"
    ∷ "nav.section.admin" :> "Administration"
    ∷ "nav.openMenu" :> "Open the menu"
    ∷ "brand.tagline" :> "TLS compliance"
    ∷ "brand.signedInAs" :> "Signed in as {role}"
    ∷ "menu.account" :> "Account and settings"
    ∷ "menu.settings" :> "Settings"
    ∷ "menu.profile" :> "Profile"
    ∷ "theme.blue" :> "Blue"
    ∷ "theme.blue.sub" :> "The default LCIT blue"
    ∷ "theme.violet" :> "Violet"
    ∷ "theme.violet.sub" :> "The LCIT sign-in palette"
    ∷ "theme.aurora" :> "Aurora"
    ∷ "theme.aurora.sub" :> "Indigo, the original redesign"
    ∷ "theme.azure" :> "Azure"
    ∷ "theme.azure.sub" :> "Sky blue as a tint"
    ∷ "theme.studio" :> "Studio"
    ∷ "theme.studio.sub" :> "Near monochrome, compact"
    ∷ "state.loading" :> "Loading…"
    ∷ "table.filter" :> "Filter"
    ∷ "table.selectAll" :> "Select shown"
    ∷ "table.clear" :> "Clear"
    ∷ "table.reset" :> "Reset"
    ∷ "table.count" :> "{shown} of {total}"
    ∷ "confirm.deleteScan" :> "Delete this scan and its reports? This cannot be undone."
    ∷ "action.delete" :> "Delete"
    ∷ "target.name" :> "Name"
    ∷ "target.nameHint" :> "A label that is easy to recognise, for example “Public website”."
    ∷ "target.type" :> "Type"
    ∷ []
