-- ===== src/I18n/Fr/Part6.antt =====
-- frontend/src/i18n/fr.ts, lines 474 to 567.
use scan_tls.Common.{Text, List, [], ◌∷◌, ◌:>◌}

unfoldable pub fr_6 : List (Text × Text)
fr_6 =
    "admin.graphSender" :> "Boîte d'envoi"
    ∷ "admin.graphSecretHint"
      :> "Le secret client est lu depuis TLS_SCAN_GRAPH_CLIENT_SECRET(_FILE), jamais stocké ici. Nécessite la permission d'application Mail.Send."
    ∷ "admin.testConnector" :> "Tester la connexion"
    ∷ "admin.directory" :> "Annuaire"
    ∷ "admin.imports" :> "Imports"
    ∷ "admin.gbTitle" :> "OpenVAS / Greenbone"
    ∷ "admin.gbHint"
      :> "GMP est la méthode recommandée. Le serveur n’est jamais modifié et aucun scan n’est lancé."
    ∷ "admin.gbHost" :> "Hôte autorisé"
    ∷ "admin.gbName" :> "Nom de connexion"
    ∷ "admin.gbPort" :> "Port GMP"
    ∷ "admin.gbUsername" :> "Utilisateur GMP"
    ∷ "admin.gbTimeout" :> "Timeout (secondes)"
    ∷ "admin.gbSecret"
      :> "Le mot de passe et les certificats restent côté serveur (variables/fichiers secrets)."
    ∷ "admin.gbSave" :> "Enregistrer la connexion"
    ∷ "admin.gbTest" :> "Tester la connexion"
    ∷ "admin.gbRetrieve" :> "Récupérer les configurations"
    ∷ "admin.gbXml" :> "Importer des fichiers XML GMP"
    ∷ "admin.gbAnalyze" :> "Analyser les fichiers"
    ∷ "admin.gbPreview" :> "Prévisualiser"
    ∷ "admin.gbApply" :> "Importer dans TLS Scan"
    ∷ "admin.gbTargets" :> "Cibles"
    ∷ "admin.gbGroups" :> "Groupes"
    ∷ "admin.gbSelectAll" :> "Sélectionner toutes les cibles"
    ∷ "admin.gbTag" :> "Ajouter le tag « Import OpenVAS » aux nouvelles cibles"
    ∷ "admin.gbNoPassword" :> "Mot de passe GMP non configuré côté serveur"
    ∷ "admin.gbHistory" :> "Historique des imports"
    ∷ "admin.gbPending" :> "Récupération en cours…"
    ∷ "admin.gbTasks" :> "Tasks"
    ∷ "admin.gbTaskMapping" :> "Tasks → définitions TLS Scan"
    ∷ "admin.gbTaskHint"
      :> "Sélectionnez explicitement un profil et une ou plusieurs politiques TLS Scan publiés. Aucun scan Greenbone n’est lancé."
    ∷ "admin.gbProfile" :> "Profil TLS Scan"
    ∷ "admin.gbPolicies" :> "Politiques TLS Scan"
    ∷ "admin.gbTcpPorts" :> "Ports TCP"
    ∷ "admin.gbScanConfigs" :> "Configurations de scan"
    ∷ "admin.gbSourceTags" :> "Tags Greenbone"
    ∷ "admin.gbSchedulesInactive" :> "inactives / informatives"
    ∷ "admin.gbMissingTarget" :> "Target référencée absente"
    ∷ "admin.gbImportResult" :> "Cibles créées"
    ∷ "admin.gbDefinitionsResult" :> "définitions créées"
    ∷ "admin.gbDryRunText" :> "aucune modification"
    ∷ "admin.gbConfigRef" :> "configuration"
    ∷ "admin.importFromDirectory" :> "Importer des comptes depuis l’annuaire"
    ∷ "admin.dirImportHint"
      :> "Recherchez les comptes, choisissez leur rôle et importez uniquement les personnes autorisées. Leur première connexion sera possible après import."
    ∷ "admin.dirConfigureFirst"
      :> "Configurez d’abord une source de recherche dans Administration → Annuaire."
    ∷ "admin.dirImportInUsers"
      :> "La recherche et l’import des comptes se font dans Administration → Utilisateurs."
    ∷ "admin.directoryHint"
      :> "Recherche en lecture seule pour pré-créer des personnes avec un rôle. L'authentification reste assurée par le SSO / les comptes locaux."
    ∷ "admin.dirKind" :> "Type d'annuaire"
    ∷ "admin.ldapUrl" :> "URL du serveur (ldap:// ou ldaps://)"
    ∷ "admin.ldapBindDn" :> "DN de liaison (compte en lecture seule)"
    ∷ "admin.ldapBase" :> "DN de base"
    ∷ "admin.ldapFilter" :> "Filtre utilisateurs"
    ∷ "admin.ldapVerify" :> "Vérifier le certificat du serveur"
    ∷ "admin.ldapStarttls" :> "Utiliser StartTLS (pour les URL ldap://)"
    ∷ "admin.ldapCA" :> "Certificat CA personnalisé (PEM, facultatif)"
    ∷ "admin.ldapPasswordHint"
      :> "Le mot de passe de liaison est lu depuis TLS_SCAN_LDAP_BIND_PASSWORD(_FILE)."
    ∷ "admin.entraPasswordHint"
      :> "Le secret client est lu depuis TLS_SCAN_DIRECTORY_CLIENT_SECRET(_FILE). Nécessite la permission d'application User.Read.All."
    ∷ "admin.dirSearch" :> "Rechercher une personne (nom ou e-mail)"
    ∷ "admin.dirAdd" :> "Ajouter avec le rôle"
    ∷ "admin.dirExists" :> "A déjà un compte"
    ∷ "tpl.org" :> "Nom de l'organisation (page de garde)"
    ∷ "tpl.accent" :> "Couleur d'accent"
    ∷ "tpl.logo" :> "Logo (PNG, JPEG ou SVG, 150 Ko max)"
    ∷ "tpl.brandHint"
      :> "Appliqué au rapport HTML uniquement ; la langue et les sections du rapport sont celles du moteur."
    ∷ "nav.section.workspace" :> "Mon espace"
    ∷ "nav.section.scanning" :> "Analyse"
    ∷ "nav.section.results" :> "Résultats"
    ∷ "nav.section.admin" :> "Administration"
    ∷ "nav.openMenu" :> "Ouvrir le menu"
    ∷ "brand.tagline" :> "Conformité TLS"
    ∷ "brand.signedInAs" :> "Connecté en tant que {role}"
    ∷ "menu.account" :> "Compte et réglages"
    ∷ "menu.settings" :> "Réglages"
    ∷ "menu.profile" :> "Profil"
    ∷ "theme.blue" :> "Blue"
    ∷ "theme.blue.sub" :> "Le bleu LCIT par défaut"
    ∷ "theme.violet" :> "Violet"
    ∷ "theme.violet.sub" :> "La palette de connexion LCIT"
    ∷ "theme.aurora" :> "Aurora"
    ∷ "theme.aurora.sub" :> "Indigo, le design d'origine"
    ∷ "theme.azure" :> "Azure"
    ∷ "theme.azure.sub" :> "Bleu ciel en touche légère"
    ∷ "theme.studio" :> "Studio"
    ∷ "theme.studio.sub" :> "Quasi monochrome, compact"
    ∷ "state.loading" :> "Chargement…"
    ∷ "table.filter" :> "Filtrer"
    ∷ "table.selectAll" :> "Tout sélectionner"
    ∷ "table.clear" :> "Effacer"
    ∷ "table.reset" :> "Réinitialiser"
    ∷ "table.count" :> "{shown} sur {total}"
    ∷ "confirm.deleteScan" :> "Supprimer ce scan et ses rapports ? Cette action est irréversible."
    ∷ "action.delete" :> "Supprimer"
    ∷ "target.name" :> "Nom"
    ∷ "target.nameHint" :> "Un libellé facile à reconnaître, par exemple « Site web public »."
    ∷ "target.type" :> "Type"
    ∷ []
