-- ===== src/I18n/Fr/Part7.antt =====
-- frontend/src/i18n/fr.ts, lines 568 to 661.
use scan_tls.Common.{Text, List, [], ◌∷◌, ◌:>◌}

unfoldable pub fr_7 : List (Text × Text)
fr_7 =
    "target.kind.fqdn" :> "Nom d'hôte (FQDN)"
    ∷ "target.kind.ip" :> "Adresse IP"
    ∷ "target.kind.cidr" :> "Sous-réseau (CIDR)"
    ∷ "target.valueHint.fqdn" :> "Par exemple www.example.org"
    ∷ "target.valueHint.ip" :> "Par exemple 192.0.2.10"
    ∷ "target.valueHint.cidr" :> "Par exemple 192.0.2.0/24"
    ∷ "target.kind.mixed" :> "Mixte (détecté)"
    ∷ "target.values" :> "Cibles"
    ∷ "target.valuesHint"
      :> "FQDN, adresse IP ou réseau CIDR. Vous pouvez en saisir plusieurs, un par ligne."
    ∷ "target.multiHint"
      :> "{n} cibles : elles seront créées et regroupées dans un groupe portant le nom saisi."
    ∷ "target.valueRequired" :> "Saisissez au moins une cible."
    ∷ "discover.title" :> "Découverte DNS"
    ∷ "discover.intro"
      :> "Recherche les serveurs de noms d'un domaine et demande à chacun, une seule fois, un transfert de zone (AXFR) de ce domaine. Rien n'est deviné ni forcé. Un transfert est normalement refusé ; un transfert accepté est lui-même une faiblesse DNS."
    ∷ "discover.domain" :> "Domaine"
    ∷ "discover.authorize" :> "Je confirme être autorisé à interroger ce domaine."
    ∷ "discover.start" :> "Lancer la découverte"
    ∷ "discover.running" :> "Découverte en cours…"
    ∷ "discover.failed" :> "La découverte a échoué."
    ∷ "discover.transferOpen"
      :> "Un serveur de noms a accepté le transfert de zone : n'importe qui peut lister cette zone. Corrigez la configuration DNS (limitez l'AXFR à vos serveurs secondaires)."
    ∷ "discover.transferRefused"
      :> "Aucun serveur de noms n'a accepté de transfert de zone (comportement normal et sûr). Ajoutez les noms vous-même ou importez une liste."
    ∷ "discover.ns" :> "Serveur de noms"
    ∷ "discover.hosts" :> "Noms d'hôtes trouvés ({n})"
    ∷ "discover.all" :> "Tout sélectionner"
    ∷ "discover.none" :> "Tout désélectionner"
    ∷ "discover.truncated" :> "Liste tronquée."
    ∷ "discover.add" :> "Ajouter {n} comme cibles"
    ∷ "discover.source" :> "Découverte DNS de {domain}"
    ∷ "discover.status.transferred" :> "Transfert accepté"
    ∷ "discover.status.refused" :> "Refusé"
    ∷ "discover.status.timeout" :> "Délai dépassé"
    ∷ "discover.status.unreachable" :> "Injoignable"
    ∷ "discover.status.unresolved" :> "Adresse introuvable"
    ∷ "discover.status.skipped" :> "Ignoré (adresse locale)"
    ∷ "discover.status.error" :> "Erreur"
    ∷ "access.section" :> "Accès API et MCP"
    ∷ "access.api.title" :> "API externe"
    ∷ "access.mcp.title" :> "Serveur MCP"
    ∷ "access.api.about"
      :> "API REST en lecture seule (/api/v1) pour consulter les résultats de scans depuis vos propres outils, avec une clé API personnelle."
    ∷ "access.mcp.about"
      :> "Serveur MCP (/mcp) permettant à un assistant IA compatible de consulter les résultats de scans, en lecture seule, avec une clé dédiée."
    ∷ "access.api.switchHint" :> "API REST /api/v1, lecture seule, Personal API Token."
    ∷ "access.mcp.switchHint" :> "Serveur MCP /mcp, lecture seule, clé dédiée."
    ∷ "access.global" :> "Service (administrateur)"
    ∷ "access.individual" :> "Votre compte"
    ∷ "access.key" :> "Clé"
    ∷ "access.expires" :> "Expire le"
    ∷ "access.lastUsed" :> "Dernière utilisation"
    ∷ "access.enabled" :> "Activé"
    ∷ "access.disabled" :> "Désactivé"
    ∷ "access.allowed" :> "Autorisé"
    ∷ "access.notAllowed" :> "Non autorisé"
    ∷ "access.keyActive" :> "Active"
    ∷ "access.keyNone" :> "Aucune clé"
    ∷ "access.askAdmin"
      :> "Votre compte n'est pas autorisé à utiliser ce service. Demandez à un administrateur."
    ∷ "access.serviceOff" :> "Ce service est actuellement désactivé par l'administrateur."
    ∷ "access.generate" :> "Générer une clé"
    ∷ "access.regenerate" :> "Régénérer (révoque la clé actuelle)"
    ∷ "access.revoke" :> "Révoquer"
    ∷ "access.confirmRevoke"
      :> "Révoquer cette clé maintenant ? Les applications qui l'utilisent perdront l'accès immédiatement."
    ∷ "access.howTo" :> "Comment se connecter"
    ∷ "access.docsAt" :> "Documentation :"
    ∷ "access.mcpUrl" :> "URL du serveur MCP :"
    ∷ "access.keyTitle" :> "Votre nouvelle clé"
    ∷ "access.keyWarning"
      :> "Copiez cette clé maintenant : elle n'est affichée qu'une seule fois et ne pourra pas être récupérée. Gardez-la secrète ; elle est valable 90 jours."
    ∷ "access.copy" :> "Copier"
    ∷ "access.copied" :> "Copié"
    ∷ "access.adminTitle" :> "Accès externes"
    ∷ "access.adminHint"
      :> "Les deux services sont désactivés par défaut. Désactiver un service suspend immédiatement toutes les clés ; les clés existantes restent révocables. Les utilisateurs doivent aussi être autorisés individuellement dans Utilisateurs."
    ∷ "access.apiShort" :> "API"
    ∷ "access.mcpShort" :> "MCP"
    ∷ "target.kindMismatch" :> "La valeur ne correspond pas au type choisi."
    ∷ "scans.group" :> "Regroupé"
    ∷ "scans.flat" :> "Toutes les exécutions"
    ∷ "scans.runsCount" :> "{n} exécutions"
    ∷ "scans.rescan" :> "Relancer"
    ∷ "scans.history" :> "Historique"
    ∷ "scans.last" :> "Dernière exécution"
    ∷ "scans.trend" :> "vs précédent"
    ∷ "scans.search" :> "Rechercher un scan"
    ∷ "admin.trustStores" :> "Autorités de confiance"
    ∷ "ts.subtitle"
      :> "Magasins de confiance contenant les certificats d'autorités utilisés pour vérifier les certificats émis par des PKI privées. Un profil choisit les magasins à utiliser."
    ∷ "ts.new" :> "Nouveau magasin"
    ∷ "ts.type" :> "Type"
    ∷ "ts.builtin" :> "Public intégré"
    ∷ "ts.private" :> "Privé"
    ∷ "ts.certs" :> "Certificats CA"
    ∷ "ts.version" :> "Version"
    ∷ "ts.updated" :> "Modifié"
    ∷ "ts.builtinHint"
      :> "Magasin public dérivé de Mozilla fourni avec TLS Scan. Il ne peut pas être modifié ici."
    ∷ "ts.empty"
      :> "Aucun magasin privé. Importez votre Root CA interne pour vérifier les certificats d'une PKI privée."
    ∷ "ts.files" :> "Fichiers de certificats CA (.pem, .crt, .cer au format PEM)"
    ∷ "ts.filesHint"
      :> "Certificats publics d'autorités uniquement ; plusieurs par fichier possibles. Les clés privées, fichiers PKCS#12/PFX et DER sont refusés."
    ∷ "ts.anchor" :> "Root CA (ancre de confiance)"
    ∷ "ts.intermediate" :> "CA intermédiaire"
    ∷ "ts.intermediateHint"
      :> "Une CA intermédiaire ne devient jamais une ancre de confiance : elle sert seulement à compléter la chaîne jusqu'à une Root CA du même magasin."
    ∷ []
