-- ===== src/I18n/En/Part9.antt =====
-- frontend/src/i18n/en.ts, lines 755 to 848.
use scan_tls.Common.{Text, List, [], ◌∷◌, ◌:>◌}

unfoldable pub en_9 : List (Text × Text)
en_9 =
    "dd.m.status.partial" :> "Partial"
    ∷ "dd.m.status.failed" :> "Failed"
    ∷ "dd.m.status.skipped" :> "Skipped"
    ∷ "dd.axfrServersTitle" :> "Zone transfer, per server"
    ∷ "dd.secOpen"
      :> "A public authoritative server accepted a zone transfer: anyone can list this zone. This is a DNS exposure to fix, not a TLS result."
    ∷ "dd.xfr.transferred" :> "Transfer accepted"
    ∷ "dd.xfr.refused" :> "Refused (normal)"
    ∷ "dd.xfr.timeout" :> "Timed out"
    ∷ "dd.xfr.unreachable" :> "Unreachable"
    ∷ "dd.xfr.unresolved" :> "Address not found"
    ∷ "dd.xfr.skipped" :> "Skipped (local address)"
    ∷ "dd.xfr.too_large" :> "Too large, stopped"
    ∷ "dd.xfr.error" :> "Error"
    ∷ "dd.inv.NEW" :> "New"
    ∷ "dd.inv.EXISTING" :> "Existing"
    ∷ "dd.inv.ENRICHABLE" :> "To enrich"
    ∷ "dd.inv.CHANGED" :> "Changed"
    ∷ "dd.inv.OUT_OF_SCOPE" :> "Outside the domain"
    ∷ "dd.all" :> "All"
    ∷ "dd.search" :> "Search a name or an address"
    ∷ "dd.source" :> "Source"
    ∷ "dd.inventory" :> "Inventory"
    ∷ "dd.fqdn" :> "Name (FQDN)"
    ∷ "dd.ip" :> "Addresses"
    ∷ "dd.type" :> "Type"
    ∷ "dd.select" :> "Selection"
    ∷ "dd.selectNew" :> "Select the new ones"
    ∷ "dd.selectEnrich" :> "Select the enrichable ones"
    ∷ "dd.selectNone" :> "Clear the selection"
    ∷ "dd.selected" :> "{n} selected"
    ∷ "dd.of" :> "{shown} of {total}"
    ∷ "dd.prev" :> "Previous"
    ∷ "dd.next" :> "Next"
    ∷ "dd.wildcard" :> "wildcard"
    ∷ "dd.historical" :> "historical (does not resolve)"
    ∷ "dd.ptrMismatch" :> "PTR differs from forward DNS"
    ∷ "dd.ambiguous" :> "Several targets: choose"
    ∷ "dd.choose" :> "Choose a target"
    ∷ "dd.review" :> "Review"
    ∷ "dd.continue" :> "Review the selection"
    ∷ "dd.back" :> "Back"
    ∷ "dd.ports" :> "Ports for new targets (empty = profile ports)"
    ∷ "dd.group" :> "Group"
    ∷ "dd.groupNone" :> "No group"
    ∷ "dd.groupNew" :> "Create a new group…"
    ∷ "dd.groupName" :> "New group name"
    ∷ "dd.confirmBusiness"
      :> "Also apply the tags, SI and group to the targets that already exist ({n}). Nothing already entered is replaced; these are additions."
    ∷ "dd.willCreate" :> "{n} new target(s) will be created"
    ∷ "dd.willReuse" :> "{n} existing target(s) kept"
    ∷ "dd.willEnrich" :> "{n} target(s) enriched with DNS observations"
    ∷ "dd.willSkip" :> "{n} not processed"
    ∷ "dd.cov.title" :> "Scan coverage"
    ∷ "dd.cov.col" :> "Already scanned?"
    ∷ "dd.cov.summary"
      :> "{covered} name(s) already covered by a scan, {recent} scanned within the last {days} days: unchecked by default in bulk selections."
    ∷ "dd.cov.include" :> "Also include the names already covered in bulk selections"
    ∷ "dd.cov.covered" :> "Covered"
    ∷ "dd.cov.via.target" :> "direct target"
    ∷ "dd.cov.via.group" :> "via group {group}"
    ∷ "dd.cov.via.address" :> "via {group}"
    ∷ "dd.cov.scheduled" :> "scheduled"
    ∷ "dd.cov.recent" :> "Recently scanned"
    ∷ "dd.cov.shared" :> "Same address as {value}"
    ∷ "dd.scan" :> "Scan"
    ∷ "dd.scan.none" :> "Do not touch the scans"
    ∷ "dd.scan.existing" :> "Add the group to existing scans"
    ∷ "dd.scan.new" :> "Create a new scan on this group"
    ∷ "dd.scan.noDefinitions" :> "No scan defined."
    ∷ "dd.scan.chooseProfile" :> "Choose a profile"
    ∷ "dd.scan.name" :> "Scan name"
    ∷ "dd.scan.profile" :> "Profile"
    ∷ "dd.scan.policies" :> "Policies"
    ∷ "dd.scan.scheduled" :> "scheduled: the new names will be scanned at the next run"
    ∷ "dd.scan.plan.add_group" :> "The group will be added to the scan “{name}”"
    ∷ "dd.scan.plan.already" :> "The scan “{name}” already analyses this group"
    ∷ "dd.scan.plan.create" :> "The scan “{name}” will be created (not launched)"
    ∷ "dd.noLaunch" :> "No scan is started: you launch it yourself from Scans."
    ∷ "dd.defaultGroup" :> "Discovery"
    ∷ "dd.defaultScan" :> "Scan"
    ∷ "dd.settingsRecent" :> "Recent scan (days)"
    ∷ "dd.settingsRecentHint"
      :> "A name scanned within this many days is flagged and unchecked by default in the import."
    ∷ "dd.noScan" :> "No scan is started and no scan definition is modified."
    ∷ "dd.apply" :> "Add / Enrich the targets"
    ∷ "dd.done"
      :> "Done: {create} created, {reuse} kept, {enrich} enriched, {skipped} not processed."
    ∷ "dd.sum.found" :> "{n} host(s) discovered"
    ∷ "dd.addNew" :> "Add the new targets"
    ∷ "dd.addSelection" :> "Add / Enrich the selection"
    ∷ "dd.addNew.none" :> "No new target to add."
    ∷ "dd.tag.option" :> "Tag the targets “{tag}”"
    ∷ "dd.tag.hint"
      :> "A practical filter, not the proof of origin: each target keeps the DNS method, domain and date of its discovery. A target that already exists only gets the tag after your confirmation."
    ∷ "dd.group.proposedNew" :> "{name} (proposed, will be created)"
    ∷ "dd.group.proposedExisting" :> "{name} (proposed, existing group, fed again)"
    ∷ "dd.group.hint"
      :> "One group per domain, without a date: running the discovery again feeds the same group."
    ∷ "dd.adv.scans" :> "Advanced options — Scans"
    ∷ "dd.sum.known" :> "{n} already in Targets, left unchanged"
    ∷ []
