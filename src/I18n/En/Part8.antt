-- ===== src/I18n/En/Part8.antt =====
-- frontend/src/i18n/en.ts, lines 661 to 754.
use scan_tls.Common.{Text, List, [], ◌∷◌, ◌:>◌}

unfoldable pub en_8 : List (Text × Text)
en_8 =
    "ts.subject" :> "Subject"
    ∷ "ts.issuer" :> "Issuer"
    ∷ "ts.serial" :> "Serial number"
    ∷ "ts.validity" :> "Validity"
    ∷ "ts.key" :> "Key"
    ∷ "ts.signature" :> "Signature algorithm"
    ∷ "ts.fingerprint" :> "SHA-256 fingerprint"
    ∷ "ts.basic" :> "Basic Constraints"
    ∷ "ts.keyUsage" :> "Key Usage"
    ∷ "ts.expired" :> "Expired"
    ∷ "ts.expiresIn" :> "Expires in {days} d"
    ∷ "ts.duplicate" :> "duplicate"
    ∷ "ts.invalid" :> "Refused"
    ∷ "ts.create" :> "Create and import"
    ∷ "ts.publish" :> "Publish a new version"
    ∷ "ts.modeAdd" :> "Add to the current content"
    ∷ "ts.modeReplace" :> "Replace the whole content"
    ∷ "ts.comment" :> "Comment"
    ∷ "ts.versions" :> "Versions"
    ∷ "ts.profiles" :> "Profiles using this store"
    ∷ "ts.noProfile" :> "No profile uses this store."
    ∷ "ts.scansUsing" :> "{n} scan(s) used this store."
    ∷ "ts.confirmPublish"
      :> "Publish a new version? Scans already run keep the version they used; new scans will use this one."
    ∷ "ts.confirmDeactivate"
      :> "Deactivate this store? Profiles that select it will not be able to launch scans until it is reactivated."
    ∷ "ts.confirmDelete"
      :> "Permanently delete this store? It is not referenced by any profile or scan."
    ∷ "ts.confirmRemove"
      :> "Remove this certificate? A new version is published without it; older versions keep it."
    ∷ "ts.remove" :> "Remove"
    ∷ "ts.delete" :> "Delete"
    ∷ "ts.noFile" :> "Select at least one file."
    ∷ "ts.preview" :> "Preview"
    ∷ "ts.details" :> "Details"
    ∷ "ts.hasExpired" :> "contains an expired certificate"
    ∷ "ts.inactive" :> "inactive"
    ∷ "ts.publicName" :> "Public authorities (built-in)"
    ∷ "prof.trustPublic" :> "Built-in public authorities"
    ∷ "prof.trustPrivate" :> "Private trust stores"
    ∷ "prof.trustNone"
      :> "No private trust store available. An administrator can import one in Administration > Trust authorities."
    ∷ "prof.trustStoreInfo" :> "v{version} · {count} certificate(s)"
    ∷ "run.pkiTitle" :> "PKI trust"
    ∷ "run.pkiHint"
      :> "The chain verdict only says whether the chain leads to an authority selected for this scan. It does not say that the name matches (FQDN/SAN), that the certificate is still valid, or that it is not revoked: those controls are shown in their own columns."
    ∷ "run.pkiStores" :> "Trust stores used by this scan"
    ∷ "run.pkiTrust" :> "Chain verdict"
    ∷ "run.pkiBy" :> "Validated by"
    ∷ "run.pkiAnchor" :> "Trust authority"
    ∷ "run.pkiReason" :> "Reason"
    ∷ "run.pkiName" :> "Name (FQDN/SAN)"
    ∷ "run.pkiRevocation" :> "Revocation"
    ∷ "run.pkiCert" :> "Certificate"
    ∷ "run.pkiNotTested" :> "Not tested"
    ∷ "pki.PUBLIC_TRUSTED" :> "Public authority"
    ∷ "pki.PRIVATE_TRUSTED" :> "Private authority"
    ∷ "pki.UNTRUSTED" :> "Not trusted"
    ∷ "pki.NOT_TESTED" :> "Not tested"
    ∷ "pki.ERROR" :> "Error"
    ∷ "dd.intro"
      :> "Finds the names of a domain with several independent methods, compares them with your targets, and lets you add or enrich targets in one operation. Nothing is scanned and nothing changes until you confirm."
    ∷ "dd.step.config" :> "Configuration"
    ∷ "dd.step.run" :> "Discovery"
    ∷ "dd.step.results" :> "Results"
    ∷ "dd.step.review" :> "Add / enrich"
    ∷ "dd.mode" :> "Mode"
    ∷ "dd.mode.fast" :> "Fast"
    ∷ "dd.mode.advanced" :> "Advanced"
    ∷ "dd.mode.fastHint"
      :> "Quick answer with good coverage: DNS records, zone transfer attempt, short dictionary and Certificate Transparency for public domains."
    ∷ "dd.methods" :> "Methods"
    ∷ "dd.m.dns" :> "DNS records (A, AAAA, NS, MX, SRV)"
    ∷ "dd.m.axfr" :> "Zone transfer (AXFR)"
    ∷ "dd.m.dictionary" :> "Common sub-domains (dictionary)"
    ∷ "dd.m.ct" :> "Certificate Transparency (public domains only)"
    ∷ "dd.m.reverse" :> "Reverse DNS (PTR)"
    ∷ "dd.ctOff" :> "Disabled by the administrator."
    ∷ "dd.options" :> "Advanced options"
    ∷ "dd.dnsServer" :> "DNS server to query"
    ∷ "dd.dnsSystem" :> "Resolver configured on the worker"
    ∷ "dd.dnsNone"
      :> "No internal DNS server is declared. An administrator can declare them in Administration > Settings."
    ∷ "dd.axfrServers" :> "Also try a zone transfer from"
    ∷ "dd.dictionary" :> "Dictionary"
    ∷ "dd.dict.small" :> "Short (fast)"
    ∷ "dd.dict.extended" :> "Extended"
    ∷ "dd.dict.custom" :> "Custom"
    ∷ "dd.customWords" :> "One name (label) per line"
    ∷ "dd.reverse" :> "IP addresses or networks to resolve back (max 256 addresses)"
    ∷ "dd.timeout" :> "Timeout per query (s)"
    ∷ "dd.concurrency" :> "Parallel queries"
    ∷ "dd.start" :> "Start discovery"
    ∷ "dd.authorize"
      :> "I confirm that I am authorised to query this domain and the DNS servers selected."
    ∷ "dd.running" :> "Discovery in progress"
    ∷ "dd.queued" :> "Waiting for the worker…"
    ∷ "dd.names" :> "{n} unique name(s)"
    ∷ "dd.queries" :> "{n} queries"
    ∷ "dd.cancel" :> "Cancel the discovery"
    ∷ "dd.partialNote" :> "The discovery was interrupted: the results below are partial."
    ∷ "dd.m.status.pending" :> "Waiting"
    ∷ "dd.m.status.running" :> "Running"
    ∷ "dd.m.status.done" :> "Done"
    ∷ []
