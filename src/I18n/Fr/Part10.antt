-- ===== src/I18n/Fr/Part10.antt =====
-- frontend/src/i18n/fr.ts, lines 850 to 939.
use scan_tls.Common.{Text, List, [], ◌∷◌, ◌:>◌}

unfoldable pub fr_10 : List (Text × Text)
fr_10 =
    "dd.sum.group" :> "Groupe : {name}"
    ∷ "dd.sum.noGroup" :> "Aucun groupe"
    ∷ "dd.sum.tag" :> "Tag automatique : {tag}"
    ∷ "dd.sum.noTag" :> "Pas de tag automatique"
    ∷ "dd.imported" :> "Import terminé"
    ∷ "dd.imp.created" :> "{n} Target(s) créée(s)"
    ∷ "dd.imp.enriched" :> "{n} Target(s) enrichie(s)"
    ∷ "dd.imp.known" :> "{n} Target(s) déjà connue(s)"
    ∷ "dd.imp.errors" :> "{n} erreur(s)"
    ∷ "dd.viewTargets" :> "Voir les Targets importées"
    ∷ "target.prov.filter" :> "Provenance"
    ∷ "target.prov.all" :> "Toutes provenances"
    ∷ "target.prov.dns" :> "Découverte DNS"
    ∷ "target.prov.created" :> "Créée par une découverte DNS"
    ∷ "target.prov.enriched" :> "Enrichie par une découverte DNS"
    ∷ "target.prov.title" :> "Provenance DNS"
    ∷ "target.prov.domain" :> "Domaine source"
    ∷ "target.prov.methods" :> "Méthodes DNS"
    ∷ "target.prov.first" :> "Première observation"
    ∷ "target.prov.last" :> "Dernière observation"
    ∷ "target.prov.ips" :> "Adresses observées"
    ∷ "target.prov.cnames" :> "Alias (CNAME)"
    ∷ "target.prov.discovery" :> "Dernière découverte"
    ∷ "target.prov.note"
      :> "Un nom DNS ne prouve pas que l'hôte est joignable ou sert du TLS : seul un scan le dit."
    ∷ "target.imported.filter" :> "Targets traitées par un import de découverte DNS."
    ∷ "target.imported.back" :> "Revenir à la liste complète"
    ∷ "dd.reason.out_of_scope" :> "hors du domaine : jamais importé implicitement"
    ∷ "dd.reason.not_in_discovery" :> "ne fait pas partie de cette découverte"
    ∷ "dd.reason.exists_with_other_ports"
      :> "existe avec d'autres ports : enrichissez-en une à la place"
    ∷ "dd.reason.ambiguous" :> "plusieurs cibles portent ce nom : en choisir une"
    ∷ "dd.reason.no_target" :> "aucune cible correspondante"
    ∷ "dd.reason.target_mismatch" :> "la cible choisie ne correspond pas"
    ∷ "dd.reason.invalid" :> "nom invalide"
    ∷ "dd.classNotApplied" :> "tags/SI/groupe non appliqués (confirmation nécessaire)"
    ∷ "dd.newIps" :> "nouvelle(s) adresse(s) : {ips}"
    ∷ "dd.missingIps" :> "non retrouvée(s) cette fois (conservée(s)) : {ips}"
    ∷ "dd.truncated" :> "La liste a été tronquée à la limite de sécurité."
    ∷ "dd.failed" :> "La découverte a échoué."
    ∷ "dd.settingsTitle" :> "Découverte DNS"
    ∷ "dd.settingsServers"
      :> "Serveurs DNS vers lesquels une découverte peut être dirigée (une IP par ligne, :port facultatif). Les adresses loopback, link-local et de métadonnées sont toujours refusées."
    ∷ "dd.settingsCt"
      :> "Autoriser les recherches Certificate Transparency (le nom de domaine public est envoyé à un service public de recherche CT ; les domaines internes ne le sont jamais)"
    ∷ "prog.title" :> "Progression du scan"
    ∷ "prog.queued" :> "En attente d'un worker disponible…"
    ∷ "prog.elapsed" :> "Écoulé"
    ∷ "prog.step.starting" :> "Préparation"
    ∷ "prog.step.pqc_preflight" :> "Prérequis post-quantiques"
    ∷ "prog.step.discovery" :> "Découverte des ports"
    ∷ "prog.step.tls_scan" :> "Analyse TLS"
    ∷ "prog.step.grading" :> "Évaluation de conformité"
    ∷ "prog.step.reporting" :> "Rapports"
    ∷ "prog.what.starting" :> "{n} cible(s) dans le périmètre"
    ∷ "prog.what.pqc_preflight" :> "Vérifie que les groupes post-quantiques sont testables"
    ∷ "prog.what.discovery" :> "Ports ouverts ({ports}) sur {n} cible(s)"
    ∷ "prog.what.tls" :> "Versions TLS et suites de chiffrement"
    ∷ "prog.what.cert" :> "certificat (validité, clé, signature)"
    ∷ "prog.what.trust" :> "confiance de la chaîne : {stores}"
    ∷ "prog.what.publicStore" :> "autorités publiques"
    ∷ "prog.what.revocation" :> "révocation (OCSP/CRL)"
    ∷ "prog.what.tlsChecks" :> "{n} contrôle(s) complémentaire(s)"
    ∷ "prog.what.grading" :> "Selon {policies}"
    ∷ "prog.what.reporting" :> "{formats}"
    ∷ "prog.hosts" :> "{done}/{total} hôtes analysés"
    ∷ "prog.cancelling" :> "Annulation demandée : le scan s'arrête à la fin de l'hôte en cours."
    ∷ "dd.tab" :> "Découvertes DNS"
    ∷ "dd.listEmpty"
      :> "Aucune découverte DNS pour l'instant. Lancez-en une pour trouver les noms d'un domaine et alimenter vos cibles."
    ∷ "dd.open" :> "Ouvrir"
    ∷ "dd.delete" :> "Supprimer"
    ∷ "dd.confirmDelete"
      :> "Supprimer cette découverte ? Les cibles déjà importées ne sont pas affectées."
    ∷ "dd.col.when" :> "Date"
    ∷ "dd.col.names" :> "Noms"
    ∷ "dd.col.methods" :> "Méthodes"
    ∷ "dd.col.by" :> "Demandée par"
    ∷ "dd.status.queued" :> "En attente"
    ∷ "dd.status.running" :> "En cours"
    ∷ "dd.status.done" :> "Terminée"
    ∷ "dd.status.failed" :> "Échec"
    ∷ "dd.inScope" :> "{n} dans le domaine"
    ∷ "dd.axfrOpen" :> "transfert de zone accepté"
    ∷ "dd.newDiscovery" :> "Nouvelle découverte"
    ∷ "dd.selectAll" :> "Tout sélectionner (filtre actuel)"
    ∷ "excl.label" :> "Exclusions (jamais scannées)"
    ∷ "excl.hint"
      :> "Une par ligne : une adresse IP, un réseau (10.20.0.0/24), un nom (legacy.example.org) ou un joker (*.test.example.org, qui couvre tout ce qui est en dessous mais pas le domaine lui-même)."
    ∷ "excl.run" :> "{n} exclusion(s) appliquée(s)"
    ∷ "excl.removed" :> "non scanné(s) : {list}"
    ∷ "excl.partial" :> "réseau(x) restreint(s) : {list}"
    ∷ "excl.scope.global" :> "globale"
    ∷ "excl.scope.definition" :> "ce scan"
    ∷ "excl.scope.profile" :> "profil"
    ∷ "excl.settingsTitle" :> "Exclusions globales"
    ∷ "excl.settingsHint"
      :> "Appliquées à tous les scans, quelle que soit leur définition ou leur profil : hôtes, réseaux et noms à ne jamais scanner."
    ∷ []
