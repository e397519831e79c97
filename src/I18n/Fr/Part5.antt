-- ===== src/I18n/Fr/Part5.antt =====
-- frontend/src/i18n/fr.ts, lines 380 to 473.
use scan_tls.Common.{Text, List, [], ◌∷◌, ◌:>◌}

unfoldable pub fr_5 : List (Text × Text)
fr_5 =
    "run.compliant" :> "Points d'accès conformes"
    ∷ "run.critical" :> "Constats critiques"
    ∷ "run.endpoints" :> "Points d'accès"
    ∷ "run.expandHost" :> "Afficher les endpoints de cet hôte"
    ∷ "run.endpointsCount" :> "{n} endpoints"
    ∷ "run.byHost" :> "Par hôte"
    ∷ "run.allEndpoints" :> "Tous les endpoints"
    ∷ "run.endpointsTitle" :> "Points d'accès"
    ∷ "run.errors" :> "Erreurs"
    ∷ "run.finding" :> "Constat"
    ∷ "run.findings" :> "Constats"
    ∷ "run.grade" :> "Note"
    ∷ "run.hosts" :> "hôtes"
    ∷ "run.nonCompliant" :> "Points d'accès non conformes"
    ∷ "run.noTls"
      :> "Aucun service TLS n'a été trouvé sur les ports scannés. Ce n'est ni un succès ni un résultat de conformité."
    ∷ "run.notTested" :> "Contrôles non réalisés"
    ∷ "run.openHtml" :> "Ouvrir le rapport HTML"
    ∷ "run.partial"
      :> "Ce scan est partiel : certaines cibles ou certains contrôles n'ont pas abouti."
    ∷ "run.severity" :> "Sévérité"
    ∷ "run.skipped" :> "non traitées"
    ∷ "scans.definitions" :> "Définitions"
    ∷ "scans.none" :> "Aucun scan."
    ∷ "scans.onlyMine" :> "Seulement les miens"
    ∷ "scans.runs" :> "Exécutions"
    ∷ "sched.active" :> "Actif"
    ∷ "sched.allSubtitle" :> "Toutes les planifications"
    ∷ "sched.at" :> "Date et heure"
    ∷ "sched.cron" :> "Expression cron"
    ∷ "sched.cronHint" :> "5 champs ; au plus une exécution toutes les 5 minutes."
    ∷ "sched.day" :> "Jour du mois (1-28)"
    ∷ "sched.definition" :> "Définition de scan"
    ∷ "sched.dueAt" :> "Prévue le"
    ∷ "sched.frequency" :> "Fréquence"
    ∷ "sched.history" :> "Historique"
    ∷ "sched.inactive" :> "Inactif"
    ∷ "sched.last" :> "Dernière exécution"
    ∷ "sched.mineSubtitle" :> "Vos planifications"
    ∷ "sched.new" :> "Nouvelle planification"
    ∷ "sched.next" :> "Prochaine exécution"
    ∷ "sched.none" :> "Aucune planification."
    ∷ "sched.outcome" :> "Résultat"
    ∷ "sched.outcome.triggered" :> "Déclenchée"
    ∷ "sched.outcome.skipped_overlap" :> "Ignorée (déjà en cours)"
    ∷ "sched.outcome.skipped_late" :> "Manquée (service arrêté)"
    ∷ "sched.outcome.error" :> "Erreur"
    ∷ "sched.reason" :> "Raison"
    ∷ "sched.time" :> "Heure"
    ∷ "sched.timezone" :> "Fuseau horaire"
    ∷ "sched.weekday" :> "Jour de la semaine"
    ∷ "sched.once" :> "Une fois"
    ∷ "sched.daily" :> "Quotidienne"
    ∷ "sched.weekly" :> "Hebdomadaire"
    ∷ "sched.monthly" :> "Mensuelle"
    ∷ "si.empty" :> "Aucun SI."
    ∷ "si.none" :> "Aucun (SI de premier niveau)"
    ∷ "si.parent" :> "SI parent"
    ∷ "status.scheduled" :> "Programmé"
    ∷ "status.queued" :> "En attente"
    ∷ "status.running" :> "En cours"
    ∷ "status.completed" :> "Terminé"
    ∷ "status.partial" :> "Terminé partiellement"
    ∷ "status.failed" :> "Échec"
    ∷ "status.cancelled" :> "Annulé"
    ∷ "status.expired" :> "Expiré"
    ∷ "tags.empty" :> "Aucun tag. Les tags sont créés lorsque vous les ajoutez à une cible."
    ∷ "target.edit" :> "Modifier la cible"
    ∷ "target.export" :> "Exporter"
    ∷ "target.import" :> "Importer"
    ∷ "target.imported" :> "{created} créées, {existing} existaient déjà."
    ∷ "target.importHint" :> "Une cible par ligne : valeur;ports;description"
    ∷ "target.new" :> "Nouvelle cible"
    ∷ "target.none" :> "Aucune cible."
    ∷ "target.ports" :> "Ports (facultatif)"
    ∷ "target.portsHint" :> "Remplace les ports du profil pour cette cible."
    ∷ "target.value" :> "Cible"
    ∷ "target.valueHint" :> "FQDN, adresse IP ou CIDR"
    ∷ "targets.groups" :> "Groupes de cibles"
    ∷ "targets.si" :> "Systèmes d'information"
    ∷ "targets.tags" :> "Tags"
    ∷ "targets.targets" :> "Cibles"
    ∷ "tasks.failed" :> "Mes scans en échec"
    ∷ "tasks.none" :> "Rien à signaler."
    ∷ "tasks.reports" :> "Mes rapports récents"
    ∷ "tasks.running" :> "Mes scans en cours"
    ∷ "tasks.upcoming" :> "Mes prochaines opérations"
    ∷ "tpl.formats" :> "Formats"
    ∷ "tpl.none" :> "Aucun modèle."
    ∷ "pref.ev.new_noncompliance" :> "Nouvelle non-conformité détectée"
    ∷ "pref.ev.certificate_expiring" :> "Certificat expiré ou proche de l'expiration"
    ∷ "pref.ev.schedule_problem" :> "Problème de planification"
    ∷ "admin.connector" :> "Connecteur de notification"
    ∷ "admin.connectorNone" :> "Aucun"
    ∷ "admin.graphTenant" :> "ID du tenant"
    ∷ "admin.graphClient" :> "ID client (application)"
    ∷ []
