-- ===== src/I18n/En/Part7.antt =====
-- frontend/src/i18n/en.ts, lines 567 to 660.
use scan_tls.Common.{Text, List, [], ◌∷◌, ◌:>◌}

unfoldable pub en_7 : List (Text × Text)
en_7 =
    "target.kind.fqdn" :> "Host name (FQDN)"
    ∷ "target.kind.ip" :> "IP address"
    ∷ "target.kind.cidr" :> "Subnet (CIDR)"
    ∷ "target.valueHint.fqdn" :> "For example www.example.org"
    ∷ "target.valueHint.ip" :> "For example 192.0.2.10"
    ∷ "target.valueHint.cidr" :> "For example 192.0.2.0/24"
    ∷ "target.kind.mixed" :> "Mixed (detected)"
    ∷ "target.values" :> "Targets"
    ∷ "target.valuesHint" :> "FQDN, IP address or CIDR network. Add several, one per line."
    ∷ "target.multiHint"
      :> "{n} targets: they will be created and gathered in a group named after the label."
    ∷ "target.valueRequired" :> "Enter at least one target."
    ∷ "discover.title" :> "DNS discovery"
    ∷ "discover.intro"
      :> "Looks up the name servers of a domain and asks each of them, once, for a zone transfer (AXFR) of that domain. Nothing is guessed or brute-forced. A transfer is normally refused; an accepted one is itself a DNS weakness."
    ∷ "discover.domain" :> "Domain"
    ∷ "discover.authorize" :> "I confirm that I am authorised to query this domain."
    ∷ "discover.start" :> "Start discovery"
    ∷ "discover.running" :> "Discovery in progress…"
    ∷ "discover.failed" :> "The discovery failed."
    ∷ "discover.transferOpen"
      :> "A name server accepted the zone transfer: anyone can list this zone. Fix the DNS configuration (restrict AXFR to your secondary servers)."
    ∷ "discover.transferRefused"
      :> "No name server accepted a zone transfer (the normal, safe behaviour). Add the names yourself or import a list."
    ∷ "discover.ns" :> "Name server"
    ∷ "discover.hosts" :> "Host names found ({n})"
    ∷ "discover.all" :> "Select all"
    ∷ "discover.none" :> "Select none"
    ∷ "discover.truncated" :> "List truncated."
    ∷ "discover.add" :> "Add {n} as targets"
    ∷ "discover.source" :> "DNS discovery of {domain}"
    ∷ "discover.status.transferred" :> "Transfer accepted"
    ∷ "discover.status.refused" :> "Refused"
    ∷ "discover.status.timeout" :> "Timed out"
    ∷ "discover.status.unreachable" :> "Unreachable"
    ∷ "discover.status.unresolved" :> "Address not found"
    ∷ "discover.status.skipped" :> "Skipped (local address)"
    ∷ "discover.status.error" :> "Error"
    ∷ "access.section" :> "API and MCP access"
    ∷ "access.api.title" :> "External API"
    ∷ "access.mcp.title" :> "MCP server"
    ∷ "access.api.about"
      :> "Read-only REST API (/api/v1) to consult scan results from your own tools, with a personal API key."
    ∷ "access.mcp.about"
      :> "MCP server (/mcp) to let a compatible AI assistant consult scan results, read-only, with a dedicated key."
    ∷ "access.api.switchHint" :> "REST API /api/v1, read-only, Personal API Token."
    ∷ "access.mcp.switchHint" :> "MCP server /mcp, read-only, dedicated key."
    ∷ "access.global" :> "Service (administrator)"
    ∷ "access.individual" :> "Your account"
    ∷ "access.key" :> "Key"
    ∷ "access.expires" :> "Expires"
    ∷ "access.lastUsed" :> "Last used"
    ∷ "access.enabled" :> "Enabled"
    ∷ "access.disabled" :> "Disabled"
    ∷ "access.allowed" :> "Authorised"
    ∷ "access.notAllowed" :> "Not authorised"
    ∷ "access.keyActive" :> "Active"
    ∷ "access.keyNone" :> "No key"
    ∷ "access.askAdmin"
      :> "Your account is not authorised to use this service. Ask an administrator."
    ∷ "access.serviceOff" :> "This service is currently disabled by the administrator."
    ∷ "access.generate" :> "Generate a key"
    ∷ "access.regenerate" :> "Regenerate (revokes the current key)"
    ∷ "access.revoke" :> "Revoke"
    ∷ "access.confirmRevoke"
      :> "Revoke this key now? Applications using it will lose access immediately."
    ∷ "access.howTo" :> "How to connect"
    ∷ "access.docsAt" :> "Documentation:"
    ∷ "access.mcpUrl" :> "MCP server URL:"
    ∷ "access.keyTitle" :> "Your new key"
    ∷ "access.keyWarning"
      :> "Copy this key now: it is shown only once and cannot be retrieved later. Keep it secret; it is valid for 90 days."
    ∷ "access.copy" :> "Copy"
    ∷ "access.copied" :> "Copied"
    ∷ "access.adminTitle" :> "External access"
    ∷ "access.adminHint"
      :> "Both services are off by default. Switching one off suspends every key immediately; existing keys can still be revoked. Users must also be authorised individually in Users."
    ∷ "access.apiShort" :> "API"
    ∷ "access.mcpShort" :> "MCP"
    ∷ "target.kindMismatch" :> "The value does not match the selected type."
    ∷ "scans.group" :> "Grouped"
    ∷ "scans.flat" :> "All executions"
    ∷ "scans.runsCount" :> "{n} runs"
    ∷ "scans.rescan" :> "Run again"
    ∷ "scans.history" :> "History"
    ∷ "scans.last" :> "Last run"
    ∷ "scans.trend" :> "vs previous"
    ∷ "scans.search" :> "Search a scan"
    ∷ "admin.trustStores" :> "Trust authorities"
    ∷ "ts.subtitle"
      :> "Trust stores holding the CA certificates used to verify certificates issued by private PKIs. A profile selects the stores to use."
    ∷ "ts.new" :> "New trust store"
    ∷ "ts.type" :> "Type"
    ∷ "ts.builtin" :> "Built-in public"
    ∷ "ts.private" :> "Private"
    ∷ "ts.certs" :> "CA certificates"
    ∷ "ts.version" :> "Version"
    ∷ "ts.updated" :> "Modified"
    ∷ "ts.builtinHint"
      :> "Mozilla-derived public store shipped with TLS Scan. It cannot be modified here."
    ∷ "ts.empty"
      :> "No private trust store yet. Import your internal Root CA to verify certificates issued by a private PKI."
    ∷ "ts.files" :> "CA certificate files (.pem, .crt, .cer in PEM format)"
    ∷ "ts.filesHint"
      :> "Public CA certificates only; several per file are allowed. Private keys, PKCS#12/PFX and DER files are refused."
    ∷ "ts.anchor" :> "Root CA (trust anchor)"
    ∷ "ts.intermediate" :> "Intermediate CA"
    ∷ "ts.intermediateHint"
      :> "An intermediate CA never becomes a trust anchor: it only helps to build the chain up to a Root CA of the same store."
    ∷ []
