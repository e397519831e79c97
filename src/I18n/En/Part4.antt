-- ===== src/I18n/En/Part4.antt =====
-- frontend/src/i18n/en.ts, lines 285 to 378.
use scan_tls.Common.{Text, List, [], ◌∷◌, ◌:>◌}

unfoldable pub en_4 : List (Text × Text)
en_4 =
    "pol.hashes" :> "Allowed signature hashes"
    ∷ "pol.immutableHint"
      :> "Published versions are never modified: saving creates a new draft version."
    ∷ "pol.importYaml" :> "Import YAML"
    ∷ "pol.latest" :> "Latest"
    ∷ "pol.newVersion" :> "New version"
    ∷ "pol.policies" :> "Cryptographic policies"
    ∷ "pol.profiles" :> "Scan profiles"
    ∷ "pol.publish" :> "Publish"
    ∷ "pol.published" :> "Published"
    ∷ "pol.rsa" :> "Minimum RSA key size (bits)"
    ∷ "pol.subtitle"
      :> "A policy defines what is acceptable; a profile defines how the checks are run."
    ∷ "pol.templates" :> "Report templates"
    ∷ "pol.versions" :> "Allowed TLS versions"
    ∷ "pref.appearance" :> "Appearance"
    ∷ "pref.dark" :> "Dark"
    ∷ "pref.light" :> "Light"
    ∷ "pref.system" :> "System"
    ∷ "pref.display" :> "Display"
    ∷ "pref.language" :> "Language"
    ∷ "pref.notifications" :> "E-mail notifications"
    ∷ "pref.ev.scan_completed" :> "Scan completed"
    ∷ "pref.ev.scan_failed" :> "Scan failed"
    ∷ "pref.ev.scan_cancelled" :> "Scan cancelled"
    ∷ "pref.palette" :> "Palette"
    ∷ "pref.password" :> "Password"
    ∷ "pref.passwordChanged" :> "Password changed."
    ∷ "prof.crypto" :> "Crypto profile"
    ∷ "prof.dns" :> "Resolve DNS names"
    ∷ "prof.expires" :> "Certificate expiry warning (days)"
    ∷ "prof.ports" :> "Ports"
    ∷ "prof.portsHint" :> "fast, all, or a list like 443,8443,9000-9010"
    ∷ "prof.revocation" :> "Check revocation (OCSP/CRL)"
    ∷ "prof.tlsChecks" :> "Complementary TLS checks"
    ∷ "prof.tlsChecksHint"
      :> "Additional non-destructive checks. They are reported next to the results and do not change the grade. Untick them all to keep the historical behaviour."
    ∷ "prof.addChecks" :> "Add checks"
    ∷ "tls.family.identity" :> "Identity and certificate"
    ∷ "tls.family.handshake" :> "Negotiation"
    ∷ "tls.family.groups" :> "Cryptographic groups"
    ∷ "tls.check.hostname_san" :> "FQDN / SAN identity"
    ∷ "tls.check.hostname_san.desc"
      :> "The certificate covers the name that was actually requested (SAN DNS or IP), independently of chain trust."
    ∷ "tls.check.ocsp_stapling" :> "OCSP stapling"
    ∷ "tls.check.ocsp_stapling.desc"
      :> "The server itself delivers a valid, current OCSP response in the handshake."
    ∷ "tls.check.tls_compression" :> "TLS compression"
    ∷ "tls.check.tls_compression.desc" :> "TLS-level compression is not negotiated (CRIME)."
    ∷ "tls.check.renegotiation" :> "Renegotiation"
    ∷ "tls.check.renegotiation.desc"
      :> "Secure renegotiation (RFC 5746) and behaviour towards client-initiated renegotiation."
    ∷ "tls.check.fallback_scsv" :> "TLS_FALLBACK_SCSV"
    ∷ "tls.check.fallback_scsv.desc"
      :> "The server rejects a downgraded connection that signals a fallback."
    ∷ "tls.check.extended_master_secret" :> "Extended Master Secret"
    ∷ "tls.check.extended_master_secret.desc" :> "Support of RFC 7627 for TLS 1.2 and earlier."
    ∷ "tls.check.ecdhe_groups" :> "ECDHE groups"
    ∷ "tls.check.ecdhe_groups.desc"
      :> "Elliptic curve groups proven to be accepted (about 18 connections per endpoint)."
    ∷ "tls.check.ffdhe_groups" :> "FFDHE groups and DH parameters"
    ∷ "tls.check.ffdhe_groups.desc"
      :> "Size of the Diffie-Hellman parameters and named FFDHE groups."
    ∷ "tls.family.sessions" :> "TLS sessions"
    ∷ "tls.family.authentication" :> "Authentication"
    ∷ "tls.family.protocols" :> "Protocols (STARTTLS)"
    ∷ "tls.check.session_resumption" :> "TLS session resumption"
    ∷ "tls.check.session_resumption.desc"
      :> "Whether the server resumes a session offered back (session identifier, ticket or TLS 1.3 PSK). A normal capability, not a defect."
    ∷ "tls.check.session_tickets" :> "TLS session tickets"
    ∷ "tls.check.session_tickets.desc"
      :> "Whether tickets are issued and usable, with their lifetime hint. Tickets are never stored."
    ∷ "tls.check.early_data" :> "TLS 1.3 early data (0-RTT)"
    ∷ "tls.check.early_data.desc"
      :> "Whether the server announces 0-RTT. Acceptance is only tested with the optional deep probe, which sends an empty line."
    ∷ "tls.check.client_auth" :> "Client authentication (mTLS)"
    ∷ "tls.check.client_auth.desc"
      :> "Whether a client certificate is requested or required at the TLS level. No client certificate is used."
    ∷ "tls.check.starttls_imap" :> "IMAP STARTTLS"
    ∷ "tls.check.starttls_imap.desc"
      :> "The service confirms IMAP and switches to TLS with STARTTLS (no login)."
    ∷ "tls.check.starttls_pop3" :> "POP3 STLS"
    ∷ "tls.check.starttls_pop3.desc"
      :> "The service confirms POP3 and switches to TLS with STLS (no login)."
    ∷ "tls.check.starttls_ldap" :> "LDAP StartTLS"
    ∷ "tls.check.starttls_ldap.desc"
      :> "The service confirms LDAP and accepts the StartTLS operation (no bind)."
    ∷ "tls.check.starttls_ftp" :> "FTP AUTH TLS"
    ∷ "tls.check.starttls_ftp.desc"
      :> "The service confirms FTP and accepts AUTH TLS (no login, no transfer)."
    ∷ "tls.check.starttls_postgres" :> "PostgreSQL SSLRequest"
    ∷ "tls.check.starttls_postgres.desc"
      :> "The server answers the native SSLRequest and switches to TLS."
    ∷ "tls.check.starttls_xmpp" :> "XMPP STARTTLS"
    ∷ "tls.check.starttls_xmpp.desc"
      :> "The server announces and accepts STARTTLS on the client-to-server stream."
    ∷ "tls.check.starttls_xmpp_server" :> "XMPP server-to-server STARTTLS"
    ∷ "tls.check.starttls_xmpp_server.desc"
      :> "The server announces and accepts STARTTLS on the server-to-server stream (port 5269)."
    ∷ "tls.opt.advanced" :> "Advanced options"
    ∷ "tls.opt.attempts" :> "Resumption attempts"
    ∷ "tls.opt.ticket_wait_seconds" :> "Ticket wait (s)"
    ∷ "tls.opt.probe" :> "Deep probe (sends an empty line as early data)"
    ∷ "tls.opt.ports" :> "Ports (comma separated, empty = standard)"
    ∷ "run.tlsChecks" :> "Complementary TLS checks"
    ∷ "run.tlsChecksHint"
      :> "Reported separately: these results do not change the grade, the compliance status or the findings."
    ∷ "run.tlsCheck" :> "Check"
    ∷ "run.tlsResult" :> "Result"
    ∷ "prof.trust" :> "Validate certificate chains"
    ∷ "prof.workers" :> "Parallel workers"
    ∷ "reports.none" :> "No report available."
    ∷ "run.affected" :> "Affected endpoints"
    ∷ "run.cancelling" :> "cancellation requested"
    ∷ "run.certificate" :> "Certificate"
    ∷ []
