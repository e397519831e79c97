-- ===== src/I18n/En/Part1.antt =====
-- frontend/src/i18n/en.ts, lines 3 to 96.
use scan_tls.Common.{Text, List, [], ◌∷◌, ◌:>◌}

unfoldable pub en_1 : List (Text × Text)
en_1 =
    "action.add" :> "Add"
    ∷ "action.cancel" :> "Cancel"
    ∷ "action.cancelScan" :> "Cancel scan"
    ∷ "action.close" :> "Close"
    ∷ "action.edit" :> "Edit"
    ∷ "action.new" :> "New"
    ∷ "action.run" :> "Run"
    ∷ "action.report" :> "Report"
    ∷ "action.save" :> "Save"
    ∷ "action.search" :> "Search"
    ∷ "admin.activeRuns" :> "Active scans"
    ∷ "admin.actor" :> "User or component"
    ∷ "admin.audit" :> "Audit log"
    ∷ "admin.confirmReset" :> "Issue a new one-time password for this user?"
    ∷ "admin.createUser" :> "Create local user"
    ∷ "admin.diagnostics" :> "Diagnostics"
    ∷ "admin.disable" :> "Disable"
    ∷ "admin.enable" :> "Enable"
    ∷ "admin.error" :> "Error"
    ∷ "admin.failedRuns" :> "Failed or partial scans"
    ∷ "admin.lastLogin" :> "Last sign-in"
    ∷ "admin.limits" :> "Limits"
    ∷ "admin.outcome" :> "Result"
    ∷ "admin.resetPassword" :> "Reset password"
    ∷ "admin.resource" :> "Resource"
    ∷ "admin.retention" :> "Data retention (days)"
    ∷ "admin.role" :> "Role"
    ∷ "admin.saved" :> "Saved."
    ∷ "admin.settings" :> "Settings"
    ∷ "admin.smtpFrom" :> "Sender address"
    ∷ "admin.smtpPasswordHint"
      :> "The SMTP password is read from the TLS_SCAN_SMTP_PASSWORD(_FILE) environment variable, never stored here."
    ∷ "admin.smtpUser" :> "Username"
    ∷ "admin.source" :> "Source"
    ∷ "auth.title" :> "Authentication"
    ∷ "auth.intro"
      :> "Who can sign in, and how. One external provider at a time, plus the local accounts. Roles stay those of TLS Scan: nothing is derived from the provider's groups."
    ∷ "auth.active" :> "Active sign-in"
    ∷ "auth.localAlways" :> "local accounts always work (emergency access)"
    ∷ "auth.src.database" :> "configured here"
    ∷ "auth.src.environment" :> "from the server environment (TLS_SCAN_OIDC_*)"
    ∷ "auth.provider" :> "Sign-in provider"
    ∷ "auth.p.local" :> "Local accounts only"
    ∷ "auth.p.env" :> "Server environment (legacy)"
    ∷ "auth.p.entra" :> "Microsoft Entra ID (OpenID Connect)"
    ∷ "auth.p.google" :> "Google Workspace (OpenID Connect)"
    ∷ "auth.p.ldap" :> "LDAP / Active Directory (directory password)"
    ∷ "auth.p.generic" :> "OpenID Connect"
    ∷ "auth.noneHint" :> "Only local accounts can sign in."
    ∷ "auth.redirectHint" :> "Register exactly this redirect URI (type Web) at the provider:"
    ∷ "auth.entraHint"
      :> "Single-tenant Web application with a client secret. Accounts of other tenants are refused; the multi-tenant endpoints (common, organizations, consumers) are not accepted."
    ∷ "auth.googleHint"
      :> "OAuth client of type Web application. Only accounts of the listed Google Workspace domains are accepted (checked on the signed hd claim, not on the e-mail suffix); personal Google accounts are refused."
    ∷ "auth.ldapHint"
      :> "Directory password sign-in (not a single sign-on): the account is looked up with the service account, then the password is verified by a bind as the user. LDAPS or StartTLS is mandatory and the certificate is always validated."
    ∷ "auth.tenant" :> "Tenant ID"
    ∷ "auth.tenantHint" :> "Directory (tenant) ID of the App Registration."
    ∷ "auth.clientId" :> "Client ID"
    ∷ "auth.issuer" :> "Issuer (optional)"
    ∷ "auth.issuerHint" :> "Empty = https://login.microsoftonline.com/<tenant>/v2.0"
    ∷ "auth.domains" :> "Allowed Workspace domains"
    ∷ "auth.domainsHint" :> "One per line."
    ∷ "auth.secretSet" :> "secret set"
    ∷ "auth.secretMissing" :> "secret missing"
    ∷ "auth.secretHint"
      :> "The secret is never stored here: set the server variable {variable} (or {variable}_FILE)."
    ∷ "auth.ldap.name" :> "Directory name"
    ∷ "auth.ldap.server_url" :> "LDAP URL (ldaps://…)"
    ∷ "auth.ldap.base_dn" :> "Base DN"
    ∷ "auth.ldap.login_attribute" :> "Login attribute (uid, sAMAccountName…)"
    ∷ "auth.ldap.user_filter" :> "User filter"
    ∷ "auth.ldap.bind_dn" :> "Service account DN"
    ∷ "auth.ldap.email_attribute" :> "E-mail attribute"
    ∷ "auth.ldap.name_attribute" :> "Display name attribute"
    ∷ "auth.ldap.id_attribute" :> "Stable identifier attribute (entryUUID, objectGUID)"
    ∷ "auth.ldap.starttls" :> "Use StartTLS (for ldap:// URLs)"
    ∷ "auth.ldap.ca" :> "Custom CA certificate (PEM)"
    ∷ "auth.ldap.caHint" :> "Needed when the directory certificate is issued by an internal CA."
    ∷ "auth.autoProvision" :> "First sign-in of an unknown person"
    ∷ "auth.autoProvisionHint"
      :> "Restrictive by default: import approved accounts in Administration → Users."
    ∷ "auth.autoOff" :> "Refuse (pre-provisioning required)"
    ∷ "auth.autoOn" :> "Create the account with the default role"
    ∷ "auth.defaultRole" :> "Default role of created accounts"
    ∷ "auth.defaultRoleHint" :> "Never administrator."
    ∷ "auth.test" :> "Test the configuration"
    ∷ "auth.unsaved" :> "Unsaved changes: save before testing."
    ∷ "auth.userTest" :> "Test a user sign-in (optional)"
    ∷ "auth.userTestHint"
      :> "Only runs when you click: the password is used once, never stored nor logged."
    ∷ "auth.userTestRun" :> "Test this sign-in"
    ∷ "auth.st.ok" :> "OK"
    ∷ "auth.st.fail" :> "Failed"
    ∷ "auth.st.warn" :> "Warning"
    ∷ "auth.st.info" :> "Note"
    ∷ "auth.diag" :> "Latest sign-in diagnostics"
    ∷ "auth.diagNone" :> "No recent failure."
    ∷ "admin.authentication" :> "Authentication"
    ∷ "admin.src.local" :> "Local"
    ∷ "admin.src.entra" :> "Entra ID"
    ∷ "admin.src.google" :> "Google Workspace"
    ∷ []
