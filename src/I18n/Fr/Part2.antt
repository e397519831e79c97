-- ===== src/I18n/Fr/Part2.antt =====
-- frontend/src/i18n/fr.ts, lines 98 to 191.
use scan_tls.Common.{Text, List, [], ◌∷◌, ◌:>◌}

unfoldable pub fr_2 : List (Text × Text)
fr_2 =
    "admin.src.ldap" :> "LDAP"
    ∷ "admin.src.sso" :> "SSO"
    ∷ "admin.src.pending" :> "Préprovisionné"
    ∷ "admin.googleDirectory" :> "Google Workspace (Admin SDK)"
    ∷ "admin.googleDomain" :> "Domaine Workspace"
    ∷ "admin.googleAdmin" :> "E-mail de l'administrateur délégué"
    ∷ "admin.googleKeyHint"
      :> "Recherche en lecture seule via un compte de service (délégation à l'échelle du domaine, scope admin.directory.user.readonly). La clé JSON est lue depuis la variable serveur TLS_SCAN_GOOGLE_DIRECTORY_KEY_FILE, jamais stockée ici. Inutile pour se connecter avec Google."
    ∷ "login.ssoMicrosoft" :> "Se connecter avec Microsoft"
    ∷ "login.ssoGoogle" :> "Se connecter avec Google"
    ∷ "login.local" :> "Connexion locale"
    ∷ "login.directory" :> "Connexion avec votre compte d'annuaire"
    ∷ "login.backToExternal" :> "Retour à la connexion principale"
    ∷ "admin.storageFree" :> "Stockage libre"
    ∷ "admin.tempPassword" :> "Mot de passe à usage unique"
    ∷ "admin.tempPasswordHint"
      :> "Affiché une seule fois. L'utilisateur devra le changer à sa première connexion."
    ∷ "admin.testSmtp" :> "Tester la connexion"
    ∷ "admin.testTo" :> "Envoyer un test à"
    ∷ "admin.users" :> "Utilisateurs"
    ∷ "admin.reports_days" :> "Rapports"
    ∷ "admin.runs_days" :> "Historique des scans"
    ∷ "admin.audit_days" :> "Journal d'audit"
    ∷ "cmp.changes" :> "Évolutions par point d'accès"
    ∷ "cmp.fixed" :> "Corrigées"
    ∷ "cmp.new" :> "Nouvelles non-conformités"
    ∷ "cmp.notRetested" :> "Non retestées (non comptées comme corrigées)"
    ∷ "cmp.persistent" :> "Persistantes"
    ∷ "cmp.title" :> "Comparer au précédent"
    ∷ "cmp.warn.scope_differs" :> "Le périmètre diffère entre les deux scans."
    ∷ "cmp.warn.profile_differs" :> "Le profil technique diffère."
    ∷ "cmp.warn.policy_versions_differ" :> "Les versions de politique diffèrent."
    ∷ "cmp.warn.incomplete_runs" :> "L'un des scans est incomplet."
    ∷ "col.date" :> "Date"
    ∷ "col.description" :> "Description"
    ∷ "col.duration" :> "Durée"
    ∷ "col.name" :> "Nom"
    ∷ "col.nonCompliant" :> "Non conformes"
    ∷ "col.phase" :> "Phase"
    ∷ "col.si" :> "SI"
    ∷ "col.status" :> "Statut"
    ∷ "col.tags" :> "Tags"
    ∷ "col.type" :> "Type"
    ∷ "confirm.cancelScan" :> "Annuler ce scan ? Les résultats partiels sont conservés."
    ∷ "confirm.delete" :> "Supprimer cet élément ?"
    ∷ "dash.completed" :> "Terminés"
    ∷ "dash.compliant" :> "Conformes"
    ∷ "dash.failed" :> "En échec"
    ∷ "dash.nonCompliant" :> "Non conformes"
    ∷ "dash.noScans" :> "Aucun scan pour le moment."
    ∷ "dash.noTrend" :> "Pas encore assez de scans terminés."
    ∷ "dash.noUpcoming" :> "Aucune planification à venir."
    ∷ "dash.recent" :> "Scans récents"
    ∷ "dash.running" :> "En cours"
    ∷ "dash.scope" :> "Périmètre"
    ∷ "dash.scopeAll" :> "Tous les scans"
    ∷ "dash.scopeMine" :> "Mes scans"
    ∷ "evo.sev.critical" :> "Critique"
    ∷ "evo.sev.high" :> "Élevée"
    ∷ "evo.sev.medium" :> "Moyenne"
    ∷ "evo.sev.low" :> "Faible"
    ∷ "evo.title" :> "Évolution entre deux dates"
    ∷ "evo.from" :> "Du"
    ∷ "evo.to" :> "Au"
    ∷ "evo.invalid" :> "La date de début ne peut pas dépasser la date de fin."
    ∷ "evo.noRuns" :> "Aucun scan terminé de cette définition jusqu'à cette date."
    ∷ "evo.single" :> "Un seul scan sur la période (le {date}) : rien à comparer pour l'instant."
    ∷ "evo.open" :> "Ouvrir la comparaison détaillée"
    ∷ "evo.new" :> "Nouveaux"
    ∷ "evo.fixed" :> "Corrigés"
    ∷ "evo.persistent" :> "Persistants"
    ∷ "evo.not_retested" :> "Non retestés"
    ∷ "evo.bySeverity" :> "Constats par sévérité"
    ∷ "evo.severity" :> "Sévérité"
    ∷ "evo.endpoints" :> "Points d'accès : +{added} / -{removed}"
    ∷ "evo.compliance" :> "Conformité : {improved} amélioré(s), {degraded} dégradé(s)"
    ∷ "evo.certs" :> "{n} changement(s) de certificat"
    ∷ "evo.list.new" :> "Nouveaux constats"
    ∷ "evo.list.fixed" :> "Constats corrigés"
    ∷ "evo.endpointsN" :> "{n} point(s) d'accès"
    ∷ "evo.series" :> "Constats par scan (occurrences par sévérité)"
    ∷ "evo.warn.scope_differs" :> "Les cibles diffèrent entre les deux scans."
    ∷ "evo.warn.profile_differs" :> "Le profil de scan diffère entre les deux scans."
    ∷ "evo.warn.policy_versions_differ"
      :> "Les versions de politique diffèrent entre les deux scans."
    ∷ "evo.warn.incomplete_runs" :> "L'un des deux scans est incomplet : des hôtes ont été ignorés."
    ∷ "dash.trend" :> "Évolution de la conformité"
    ∷ "dash.section.posture" :> "Sécurité et conformité"
    ∷ "dash.section.activity" :> "Activité des scans"
    ∷ "dash.na" :> "Non disponible"
    ∷ "dash.notEvaluated" :> "Non évalué"
    ∷ "dash.noData" :> "Lancez un scan pour voir la conformité ici."
    ∷ "dash.kpi.compliance" :> "Conformité TLS"
    ∷ "dash.kpi.complianceHint" :> "{n} endpoints conformes sur {total} évalués"
    ∷ "dash.kpi.complianceTip"
      :> "Endpoints conformes ÷ (conformes + non conformes), sur le dernier résultat de chaque endpoint distinct. Les endpoints en erreur ou non testés sont présentés à part et jamais comptés comme conformes."
    ∷ "dash.kpi.unevaluated" :> "{n} non évalués"
    ∷ "dash.kpi.noncompliant" :> "Endpoints non conformes"
    ∷ []
