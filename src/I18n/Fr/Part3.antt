-- ===== src/I18n/Fr/Part3.antt =====
-- frontend/src/i18n/fr.ts, lines 192 to 285.
use scan_tls.Common.{Text, List, [], ◌∷◌, ◌:>◌}

unfoldable pub fr_3 : List (Text × Text)
fr_3 =
    "dash.kpi.noncompliantHint" :> "Endpoints distincts, dernier résultat de chacun"
    ∷ "dash.kpi.noncompliantNone" :> "Aucun endpoint non conforme"
    ∷ "dash.kpi.findings" :> "Constats critiques et élevés"
    ∷ "dash.kpi.findingsHint" :> "{c} critiques · {h} élevés"
    ∷ "dash.kpi.findingsTip"
      :> "Constats distincts (un par type de problème), tels que rapportés par le moteur sur les derniers résultats. Une occurrence est un constat sur un endpoint : {o} occurrences ici. Les constats informatifs et les erreurs de scan ne sont pas comptés."
    ∷ "dash.kpi.certs" :> "Certificats à surveiller"
    ∷ "dash.kpi.certsHint" :> "{e} expirés · {s} expirent sous {d} jours"
    ∷ "dash.kpi.certsNone" :> "Aucun à surveiller sous {d} jours"
    ∷ "dash.kpi.certsTip"
      :> "Un certificat est compté une seule fois, quel que soit le nombre d'endpoints qui le présentent. Les jours restants sont ceux mesurés par le scan, diminués du temps écoulé depuis."
    ∷ "dash.kpi.certsList" :> "Échéances les plus proches"
    ∷ "dash.cert.expired" :> "expiré depuis {n} j"
    ∷ "dash.cert.in" :> "dans {n} j"
    ∷ "dash.breakdown" :> "Répartition de la conformité"
    ∷ "dash.unevaluated" :> "Non évalués ou partiels"
    ∷ "dash.breakdownTotal" :> "{n} endpoints distincts"
    ∷ "dash.basis" :> "Dernier résultat de {n} scans"
    ∷ "dash.mixedPolicies"
      :> "Plusieurs politiques ou versions de politique sont combinées ici : {names}."
    ∷ "dash.trendDef" :> "Scan"
    ∷ "dash.trendRate" :> "{rate} % · {c} conformes sur {e} évalués"
    ∷ "dash.trendNone" :> "Aucun endpoint évalué"
    ∷ "dash.trendTotal" :> "{n} endpoints dans le scan"
    ∷ "dash.trendChanged"
      :> "Périmètre, profil ou politique modifié depuis l'exécution précédente : comparaison à interpréter avec prudence."
    ∷ "dash.trendChangedLegend"
      :> "Point creux : conditions modifiées depuis l'exécution précédente"
    ∷ "dash.trendAxis" :> "Taux de conformité"
    ∷ "dash.watch" :> "Points de vigilance prioritaires"
    ∷ "dash.watchEmpty" :> "Aucune anomalie constatée dans les derniers résultats."
    ∷ "dash.watchEndpoint" :> "{n} endpoint"
    ∷ "dash.watchEndpoints" :> "{n} endpoints"
    ∷ "dash.watchCheck" :> "Contrôle complémentaire"
    ∷ "dash.watchOpen" :> "Ouvrir les résultats"
    ∷ "dash.upcoming" :> "Prochaines exécutions"
    ∷ "def.defaultTemplate" :> "Par défaut (tous les formats)"
    ∷ "def.edit" :> "Modifier la définition de scan"
    ∷ "def.groups" :> "Groupes de cibles"
    ∷ "def.new" :> "Nouveau scan"
    ∷ "def.noGroups" :> "Aucun groupe."
    ∷ "def.none" :> "Aucune définition de scan."
    ∷ "def.noPolicies" :> "Aucune politique publiée. Un opérateur doit en publier une."
    ∷ "def.noTargets" :> "Aucune cible. Créez d'abord des cibles."
    ∷ "def.policies" :> "Politiques de chiffrement"
    ∷ "def.policiesHint"
      :> "La dernière version publiée est utilisée ; les scans planifiés suivent automatiquement les nouvelles versions."
    ∷ "def.profile" :> "Profil de scan"
    ∷ "def.targets" :> "Cibles"
    ∷ "def.template" :> "Modèle de rapport"
    ∷ "filter.allSi" :> "Tous les SI"
    ∷ "filter.allStatuses" :> "Tous les statuts"
    ∷ "filter.allTags" :> "Tous les tags"
    ∷ "group.edit" :> "Modifier le groupe"
    ∷ "group.new" :> "Nouveau groupe"
    ∷ "group.none" :> "Aucun groupe."
    ∷ "hint.commaSeparated" :> "Séparés par des virgules"
    ∷ "login.eyebrow" :> "ACCÈS SÉCURISÉ"
    ∷ "login.title" :> "Connexion"
    ∷ "login.intro"
      :> "Connectez-vous avec votre compte pour configurer, lancer et consulter vos scans TLS."
    ∷ "login.tagline" :> "Maîtrisez votre exposition TLS"
    ∷ "login.product" :> "Conformité TLS & cryptographie"
    ∷ "login.vendor" :> "Un produit"
    ∷ "login.space" :> "Console de scan TLS"
    ∷ "login.foot" :> "Espace protégé — avec le SSO, votre mot de passe n'est jamais saisi ici."
    ∷ "login.changeTitle" :> "Choisissez un nouveau mot de passe"
    ∷ "login.crashtest"
      :> "Environnement CrashTest : comptes et données fictifs. Pas pour la production."
    ∷ "login.changeAndContinue" :> "Changer le mot de passe et continuer"
    ∷ "login.currentPassword" :> "Mot de passe actuel"
    ∷ "login.invalid" :> "Identifiants invalides."
    ∷ "login.mustChange" :> "Vous devez choisir un nouveau mot de passe avant de continuer."
    ∷ "login.newPassword" :> "Nouveau mot de passe"
    ∷ "login.password" :> "Mot de passe"
    ∷ "login.passwordHint" :> "12 caractères minimum, pas un mot de passe courant."
    ∷ "login.sso" :> "Se connecter avec le SSO"
    ∷ "login.submit" :> "Se connecter"
    ∷ "login.username" :> "Identifiant ou e-mail"
    ∷ "nav.admin" :> "Administration"
    ∷ "nav.dashboard" :> "Tableau de bord"
    ∷ "nav.logout" :> "Se déconnecter"
    ∷ "nav.policies" :> "Profils"
    ∷ "nav.preferences" :> "Préférences"
    ∷ "nav.reports" :> "Rapports"
    ∷ "nav.scans" :> "Scans"
    ∷ "nav.schedules" :> "Planifications"
    ∷ "nav.targets" :> "Cibles"
    ∷ "nav.tasks" :> "Mes tâches"
    ∷ "phase." :> ""
    ∷ "phase.starting" :> "Démarrage"
    ∷ "phase.pqc_preflight" :> "Vérification des prérequis PQC"
    ∷ "phase.discovery" :> "Découverte des ports"
    ∷ "phase.tls_scan" :> "Analyse TLS"
    ∷ "phase.grading" :> "Évaluation de la conformité"
    ∷ "phase.reporting" :> "Génération des rapports"
    ∷ "phase.done" :> "Terminé"
    ∷ "pol.archive" :> "Archiver"
    ∷ "pol.archived" :> "Archivée"
    ∷ "pol.ciphers" :> "Algorithmes de chiffrement autorisés"
    ∷ "pol.draft" :> "brouillon"
    ∷ "pol.duplicate" :> "Dupliquer"
    ∷ []
