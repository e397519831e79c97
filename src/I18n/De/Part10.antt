-- ===== src/I18n/De/Part10.antt =====
-- frontend/src/i18n/de.ts, lines 850 to 939.
use scan_tls.Common.{Text, List, [], ◌∷◌, ◌:>◌}

unfoldable pub de_10 : List (Text × Text)
de_10 =
    "dd.sum.group" :> "Gruppe: {name}"
    ∷ "dd.sum.noGroup" :> "Keine Gruppe"
    ∷ "dd.sum.tag" :> "Automatisches Tag: {tag}"
    ∷ "dd.sum.noTag" :> "Kein automatisches Tag"
    ∷ "dd.imported" :> "Import abgeschlossen"
    ∷ "dd.imp.created" :> "{n} Ziel(e) erstellt"
    ∷ "dd.imp.enriched" :> "{n} Ziel(e) angereichert"
    ∷ "dd.imp.known" :> "{n} Ziel(e) bereits bekannt"
    ∷ "dd.imp.errors" :> "{n} Fehler"
    ∷ "dd.viewTargets" :> "Importierte Ziele anzeigen"
    ∷ "target.prov.filter" :> "Herkunft"
    ∷ "target.prov.all" :> "Alle Herkünfte"
    ∷ "target.prov.dns" :> "DNS-Erkennung"
    ∷ "target.prov.created" :> "Durch DNS-Erkennung erstellt"
    ∷ "target.prov.enriched" :> "Durch DNS-Erkennung angereichert"
    ∷ "target.prov.title" :> "DNS-Herkunft"
    ∷ "target.prov.domain" :> "Quelldomain"
    ∷ "target.prov.methods" :> "DNS-Methoden"
    ∷ "target.prov.first" :> "Erste Beobachtung"
    ∷ "target.prov.last" :> "Letzte Beobachtung"
    ∷ "target.prov.ips" :> "Beobachtete Adressen"
    ∷ "target.prov.cnames" :> "Aliase (CNAME)"
    ∷ "target.prov.discovery" :> "Letzte Erkennung"
    ∷ "target.prov.note"
      :> "Ein DNS-Name beweist nicht, dass der Host erreichbar ist oder TLS anbietet: Nur ein Scan zeigt das."
    ∷ "target.imported.filter" :> "Von einem DNS-Erkennungsimport verarbeitete Ziele."
    ∷ "target.imported.back" :> "Zurück zur vollständigen Liste"
    ∷ "dd.reason.out_of_scope" :> "außerhalb der Domain: nie implizit importiert"
    ∷ "dd.reason.not_in_discovery" :> "nicht Teil dieser Erkennung"
    ∷ "dd.reason.exists_with_other_ports"
      :> "existiert mit anderen Ports: stattdessen eines anreichern"
    ∷ "dd.reason.ambiguous" :> "mehrere Ziele tragen diesen Namen: eines wählen"
    ∷ "dd.reason.no_target" :> "kein passendes Ziel"
    ∷ "dd.reason.target_mismatch" :> "das gewählte Ziel passt nicht"
    ∷ "dd.reason.invalid" :> "ungültiger Name"
    ∷ "dd.classNotApplied" :> "Tags/SI/Gruppe nicht angewendet (Bestätigung nötig)"
    ∷ "dd.newIps" :> "neue Adresse(n): {ips}"
    ∷ "dd.missingIps" :> "diesmal nicht gesehen (behalten): {ips}"
    ∷ "dd.truncated" :> "Die Liste wurde an der Sicherheitsgrenze abgeschnitten."
    ∷ "dd.failed" :> "Die Erkennung ist fehlgeschlagen."
    ∷ "dd.settingsTitle" :> "DNS-Erkennung"
    ∷ "dd.settingsServers"
      :> "DNS-Server, auf die eine Erkennung zeigen darf (eine IP pro Zeile, optional :Port). Loopback-, Link-Local- und Metadaten-Adressen werden immer abgelehnt."
    ∷ "dd.settingsCt"
      :> "Certificate-Transparency-Suchen erlauben (der öffentliche Domainname wird an einen öffentlichen CT-Suchdienst gesendet; interne Domains nie)"
    ∷ "prog.title" :> "Scan-Fortschritt"
    ∷ "prog.queued" :> "Warten auf einen freien Worker…"
    ∷ "prog.elapsed" :> "Verstrichen"
    ∷ "prog.step.starting" :> "Vorbereitung"
    ∷ "prog.step.pqc_preflight" :> "Post-Quanten-Voraussetzungen"
    ∷ "prog.step.discovery" :> "Port-Erkennung"
    ∷ "prog.step.tls_scan" :> "TLS-Analyse"
    ∷ "prog.step.grading" :> "Konformitätsbewertung"
    ∷ "prog.step.reporting" :> "Berichte"
    ∷ "prog.what.starting" :> "{n} Ziel(e) im Umfang"
    ∷ "prog.what.pqc_preflight" :> "Prüft, ob Post-Quanten-Gruppen testbar sind"
    ∷ "prog.what.discovery" :> "Offene Ports ({ports}) auf {n} Ziel(en)"
    ∷ "prog.what.tls" :> "TLS-Versionen und Cipher-Suites"
    ∷ "prog.what.cert" :> "Zertifikat (Gültigkeit, Schlüssel, Signatur)"
    ∷ "prog.what.trust" :> "Kettenvertrauen: {stores}"
    ∷ "prog.what.publicStore" :> "öffentliche Stellen"
    ∷ "prog.what.revocation" :> "Widerruf (OCSP/CRL)"
    ∷ "prog.what.tlsChecks" :> "{n} ergänzende Prüfung(en)"
    ∷ "prog.what.grading" :> "Gemäß {policies}"
    ∷ "prog.what.reporting" :> "{formats}"
    ∷ "prog.hosts" :> "{done}/{total} Hosts analysiert"
    ∷ "prog.cancelling" :> "Abbruch angefordert: Der Scan stoppt nach dem aktuellen Host."
    ∷ "dd.tab" :> "DNS-Erkennungen"
    ∷ "dd.listEmpty"
      :> "Noch keine DNS-Erkennung. Starten Sie eine, um die Namen einer Domain zu finden und Ihre Ziele zu ergänzen."
    ∷ "dd.open" :> "Öffnen"
    ∷ "dd.delete" :> "Löschen"
    ∷ "dd.confirmDelete" :> "Diese Erkennung löschen? Bereits importierte Ziele bleiben unberührt."
    ∷ "dd.col.when" :> "Datum"
    ∷ "dd.col.names" :> "Namen"
    ∷ "dd.col.methods" :> "Methoden"
    ∷ "dd.col.by" :> "Angefordert von"
    ∷ "dd.status.queued" :> "Wartet"
    ∷ "dd.status.running" :> "Läuft"
    ∷ "dd.status.done" :> "Fertig"
    ∷ "dd.status.failed" :> "Fehlgeschlagen"
    ∷ "dd.inScope" :> "{n} in der Domain"
    ∷ "dd.axfrOpen" :> "Zonentransfer erlaubt"
    ∷ "dd.newDiscovery" :> "Neue Erkennung"
    ∷ "dd.selectAll" :> "Alle auswählen (aktueller Filter)"
    ∷ "excl.label" :> "Ausschlüsse (nie gescannt)"
    ∷ "excl.hint"
      :> "Eine pro Zeile: eine IP-Adresse, ein Netz (10.20.0.0/24), ein Name (legacy.example.org) oder ein Platzhalter (*.test.example.org, gilt für alles darunter, nicht für die Domain selbst)."
    ∷ "excl.run" :> "{n} Ausschluss/Ausschlüsse angewendet"
    ∷ "excl.removed" :> "nicht gescannt: {list}"
    ∷ "excl.partial" :> "Netz(e) eingeschränkt: {list}"
    ∷ "excl.scope.global" :> "global"
    ∷ "excl.scope.definition" :> "dieser Scan"
    ∷ "excl.scope.profile" :> "Profil"
    ∷ "excl.settingsTitle" :> "Globale Ausschlüsse"
    ∷ "excl.settingsHint"
      :> "Gilt für jeden Scan, unabhängig von Definition oder Profil: Hosts, Netze und Namen, die nie gescannt werden dürfen."
    ∷ []
