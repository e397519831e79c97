-- ===== src/I18n/En/Part10.antt =====
-- frontend/src/i18n/en.ts, lines 849 to 938.
use scan_tls.Common.{Text, List, [], ◌∷◌, ◌:>◌}

unfoldable pub en_10 : List (Text × Text)
en_10 =
    "dd.sum.group" :> "Group: {name}"
    ∷ "dd.sum.noGroup" :> "No group"
    ∷ "dd.sum.tag" :> "Automatic tag: {tag}"
    ∷ "dd.sum.noTag" :> "No automatic tag"
    ∷ "dd.imported" :> "Import finished"
    ∷ "dd.imp.created" :> "{n} target(s) created"
    ∷ "dd.imp.enriched" :> "{n} target(s) enriched"
    ∷ "dd.imp.known" :> "{n} target(s) already known"
    ∷ "dd.imp.errors" :> "{n} error(s)"
    ∷ "dd.viewTargets" :> "See the imported targets"
    ∷ "target.prov.filter" :> "Origin"
    ∷ "target.prov.all" :> "All origins"
    ∷ "target.prov.dns" :> "DNS discovery"
    ∷ "target.prov.created" :> "Created by a DNS discovery"
    ∷ "target.prov.enriched" :> "Enriched by a DNS discovery"
    ∷ "target.prov.title" :> "DNS provenance"
    ∷ "target.prov.domain" :> "Source domain"
    ∷ "target.prov.methods" :> "DNS methods"
    ∷ "target.prov.first" :> "First observation"
    ∷ "target.prov.last" :> "Last observation"
    ∷ "target.prov.ips" :> "Addresses seen"
    ∷ "target.prov.cnames" :> "Aliases (CNAME)"
    ∷ "target.prov.discovery" :> "Last discovery"
    ∷ "target.prov.note"
      :> "A DNS name is not proof that the host is reachable or serves TLS: only a scan tells."
    ∷ "target.imported.filter" :> "Showing the targets processed by one DNS discovery import."
    ∷ "target.imported.back" :> "Back to the full list"
    ∷ "dd.reason.out_of_scope" :> "outside the domain: never imported implicitly"
    ∷ "dd.reason.not_in_discovery" :> "not part of this discovery"
    ∷ "dd.reason.exists_with_other_ports" :> "exists with other ports: enrich one of them instead"
    ∷ "dd.reason.ambiguous" :> "several targets share this name: choose one"
    ∷ "dd.reason.no_target" :> "no such target"
    ∷ "dd.reason.target_mismatch" :> "the chosen target does not match"
    ∷ "dd.reason.invalid" :> "invalid name"
    ∷ "dd.classNotApplied" :> "tags/SI/group not applied (confirmation needed)"
    ∷ "dd.newIps" :> "new address(es): {ips}"
    ∷ "dd.missingIps" :> "not seen this time (kept): {ips}"
    ∷ "dd.truncated" :> "The list was truncated at the safety limit."
    ∷ "dd.failed" :> "The discovery failed."
    ∷ "dd.settingsTitle" :> "DNS discovery"
    ∷ "dd.settingsServers"
      :> "DNS servers a discovery may be pointed at (one IP per line, optional :port). Loopback, link-local and metadata addresses are always refused."
    ∷ "dd.settingsCt"
      :> "Allow Certificate Transparency searches (the public domain name is sent to a public CT search service; internal domains never are)"
    ∷ "prog.title" :> "Scan progress"
    ∷ "prog.queued" :> "Waiting for a free worker…"
    ∷ "prog.elapsed" :> "Elapsed"
    ∷ "prog.step.starting" :> "Preparation"
    ∷ "prog.step.pqc_preflight" :> "Post-quantum prerequisites"
    ∷ "prog.step.discovery" :> "Port discovery"
    ∷ "prog.step.tls_scan" :> "TLS analysis"
    ∷ "prog.step.grading" :> "Compliance evaluation"
    ∷ "prog.step.reporting" :> "Reports"
    ∷ "prog.what.starting" :> "{n} target(s) in scope"
    ∷ "prog.what.pqc_preflight" :> "Checks that the post-quantum groups can be tested"
    ∷ "prog.what.discovery" :> "Open ports ({ports}) on {n} target(s)"
    ∷ "prog.what.tls" :> "TLS versions and cipher suites"
    ∷ "prog.what.cert" :> "certificate (validity, key, signature)"
    ∷ "prog.what.trust" :> "chain trust: {stores}"
    ∷ "prog.what.publicStore" :> "public authorities"
    ∷ "prog.what.revocation" :> "revocation (OCSP/CRL)"
    ∷ "prog.what.tlsChecks" :> "{n} complementary check(s)"
    ∷ "prog.what.grading" :> "Against {policies}"
    ∷ "prog.what.reporting" :> "{formats}"
    ∷ "prog.hosts" :> "{done}/{total} hosts analysed"
    ∷ "prog.cancelling" :> "Cancellation requested: the scan stops at the end of the current host."
    ∷ "dd.tab" :> "DNS discoveries"
    ∷ "dd.listEmpty"
      :> "No DNS discovery yet. Start one to find the names of a domain and feed your targets."
    ∷ "dd.open" :> "Open"
    ∷ "dd.delete" :> "Delete"
    ∷ "dd.confirmDelete" :> "Delete this discovery? The targets already imported are not affected."
    ∷ "dd.col.when" :> "Date"
    ∷ "dd.col.names" :> "Names"
    ∷ "dd.col.methods" :> "Methods"
    ∷ "dd.col.by" :> "Requested by"
    ∷ "dd.status.queued" :> "Queued"
    ∷ "dd.status.running" :> "Running"
    ∷ "dd.status.done" :> "Done"
    ∷ "dd.status.failed" :> "Failed"
    ∷ "dd.inScope" :> "{n} in the domain"
    ∷ "dd.axfrOpen" :> "zone transfer accepted"
    ∷ "dd.newDiscovery" :> "New discovery"
    ∷ "dd.selectAll" :> "Select all (current filter)"
    ∷ "excl.label" :> "Exclusions (never scanned)"
    ∷ "excl.hint"
      :> "One per line: an IP address, a network (10.20.0.0/24), a name (legacy.example.org) or a wildcard (*.test.example.org, which covers everything below but not the domain itself)."
    ∷ "excl.run" :> "{n} exclusion(s) applied"
    ∷ "excl.removed" :> "not scanned: {list}"
    ∷ "excl.partial" :> "network(s) narrowed: {list}"
    ∷ "excl.scope.global" :> "global"
    ∷ "excl.scope.definition" :> "this scan"
    ∷ "excl.scope.profile" :> "profile"
    ∷ "excl.settingsTitle" :> "Global exclusions"
    ∷ "excl.settingsHint"
      :> "Applied to every scan, whatever its definition or profile: hosts, networks and names that must never be scanned."
    ∷ []
