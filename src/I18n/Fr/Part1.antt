-- ===== src/I18n/Fr/Part1.antt =====
-- frontend/src/i18n/fr.ts, lines 4 to 97.
use scan_tls.Common.{Text, List, [], ◌∷◌, ◌:>◌}

unfoldable pub fr_1 : List (Text × Text)
fr_1 =
    "action.add" :> "Ajouter"
    ∷ "action.cancel" :> "Annuler"
    ∷ "action.cancelScan" :> "Annuler le scan"
    ∷ "action.close" :> "Fermer"
    ∷ "action.edit" :> "Modifier"
    ∷ "action.new" :> "Nouveau"
    ∷ "action.run" :> "Lancer"
    ∷ "action.report" :> "Rapport"
    ∷ "action.save" :> "Enregistrer"
    ∷ "action.search" :> "Rechercher"
    ∷ "admin.activeRuns" :> "Scans actifs"
    ∷ "admin.actor" :> "Utilisateur ou composant"
    ∷ "admin.audit" :> "Journal d'audit"
    ∷ "admin.confirmReset"
      :> "Générer un nouveau mot de passe à usage unique pour cet utilisateur ?"
    ∷ "admin.createUser" :> "Créer un utilisateur local"
    ∷ "admin.diagnostics" :> "Diagnostics"
    ∷ "admin.disable" :> "Désactiver"
    ∷ "admin.enable" :> "Activer"
    ∷ "admin.error" :> "Erreur"
    ∷ "admin.failedRuns" :> "Scans en échec ou partiels"
    ∷ "admin.lastLogin" :> "Dernière connexion"
    ∷ "admin.limits" :> "Limites"
    ∷ "admin.outcome" :> "Résultat"
    ∷ "admin.resetPassword" :> "Réinitialiser le mot de passe"
    ∷ "admin.resource" :> "Ressource"
    ∷ "admin.retention" :> "Conservation des données (jours)"
    ∷ "admin.role" :> "Rôle"
    ∷ "admin.saved" :> "Enregistré."
    ∷ "admin.settings" :> "Paramètres"
    ∷ "admin.smtpFrom" :> "Adresse expéditeur"
    ∷ "admin.smtpPasswordHint"
      :> "Le mot de passe SMTP est lu depuis la variable d'environnement TLS_SCAN_SMTP_PASSWORD(_FILE), jamais stocké ici."
    ∷ "admin.smtpUser" :> "Identifiant"
    ∷ "admin.source" :> "Origine"
    ∷ "auth.title" :> "Authentification"
    ∷ "auth.intro"
      :> "Qui peut se connecter, et comment. Un seul fournisseur externe à la fois, plus les comptes locaux. Les rôles restent ceux de TLS Scan : rien n'est déduit des groupes du fournisseur."
    ∷ "auth.active" :> "Connexion active"
    ∷ "auth.localAlways" :> "les comptes locaux fonctionnent toujours (accès de secours)"
    ∷ "auth.src.database" :> "configuré ici"
    ∷ "auth.src.environment" :> "depuis l'environnement du serveur (TLS_SCAN_OIDC_*)"
    ∷ "auth.provider" :> "Fournisseur de connexion"
    ∷ "auth.p.local" :> "Comptes locaux uniquement"
    ∷ "auth.p.env" :> "Environnement du serveur (existant)"
    ∷ "auth.p.entra" :> "Microsoft Entra ID (OpenID Connect)"
    ∷ "auth.p.google" :> "Google Workspace (OpenID Connect)"
    ∷ "auth.p.ldap" :> "LDAP / Active Directory (mot de passe annuaire)"
    ∷ "auth.p.generic" :> "OpenID Connect"
    ∷ "auth.noneHint" :> "Seuls les comptes locaux peuvent se connecter."
    ∷ "auth.redirectHint"
      :> "Enregistrez exactement cette URL de redirection (type Web) chez le fournisseur :"
    ∷ "auth.entraHint"
      :> "Application Web mono-tenant avec un secret client. Les comptes d'autres tenants sont refusés ; les points d'accès multi-tenant (common, organizations, consumers) ne sont pas acceptés."
    ∷ "auth.googleHint"
      :> "Client OAuth de type application Web. Seuls les comptes des domaines Google Workspace listés sont acceptés (contrôle de la claim hd signée, pas du suffixe e-mail) ; les comptes Google personnels sont refusés."
    ∷ "auth.ldapHint"
      :> "Connexion par mot de passe d'annuaire (pas du SSO) : le compte est recherché avec le compte de service, puis le mot de passe est vérifié par un bind en tant qu'utilisateur. LDAPS ou StartTLS est obligatoire et le certificat est toujours validé."
    ∷ "auth.tenant" :> "ID du tenant"
    ∷ "auth.tenantHint" :> "ID de l'annuaire (tenant) de l'App Registration."
    ∷ "auth.clientId" :> "ID client"
    ∷ "auth.issuer" :> "Émetteur (facultatif)"
    ∷ "auth.issuerHint" :> "Vide = https://login.microsoftonline.com/<tenant>/v2.0"
    ∷ "auth.domains" :> "Domaines Workspace autorisés"
    ∷ "auth.domainsHint" :> "Un par ligne."
    ∷ "auth.secretSet" :> "secret défini"
    ∷ "auth.secretMissing" :> "secret manquant"
    ∷ "auth.secretHint"
      :> "Le secret n'est jamais stocké ici : définissez la variable serveur {variable} (ou {variable}_FILE)."
    ∷ "auth.ldap.name" :> "Nom de l'annuaire"
    ∷ "auth.ldap.server_url" :> "URL LDAP (ldaps://…)"
    ∷ "auth.ldap.base_dn" :> "Base DN"
    ∷ "auth.ldap.login_attribute" :> "Attribut de connexion (uid, sAMAccountName…)"
    ∷ "auth.ldap.user_filter" :> "Filtre utilisateur"
    ∷ "auth.ldap.bind_dn" :> "DN du compte de service"
    ∷ "auth.ldap.email_attribute" :> "Attribut e-mail"
    ∷ "auth.ldap.name_attribute" :> "Attribut du nom affiché"
    ∷ "auth.ldap.id_attribute" :> "Attribut d'identifiant stable (entryUUID, objectGUID)"
    ∷ "auth.ldap.starttls" :> "Utiliser StartTLS (pour les URL ldap://)"
    ∷ "auth.ldap.ca" :> "Certificat de CA personnalisée (PEM)"
    ∷ "auth.ldap.caHint"
      :> "Nécessaire quand le certificat de l'annuaire est émis par une CA interne."
    ∷ "auth.autoProvision" :> "Première connexion d'une personne inconnue"
    ∷ "auth.autoProvisionHint"
      :> "Restrictif par défaut : importez les comptes autorisés dans Administration → Utilisateurs."
    ∷ "auth.autoOff" :> "Refuser (préprovisionnement requis)"
    ∷ "auth.autoOn" :> "Créer le compte avec le rôle par défaut"
    ∷ "auth.defaultRole" :> "Rôle par défaut des comptes créés"
    ∷ "auth.defaultRoleHint" :> "Jamais administrateur."
    ∷ "auth.test" :> "Tester la configuration"
    ∷ "auth.unsaved" :> "Modifications non enregistrées : enregistrez avant de tester."
    ∷ "auth.userTest" :> "Tester la connexion d'un utilisateur (facultatif)"
    ∷ "auth.userTestHint"
      :> "Ne s'exécute que sur clic : le mot de passe est utilisé une fois, jamais stocké ni journalisé."
    ∷ "auth.userTestRun" :> "Tester cette connexion"
    ∷ "auth.st.ok" :> "OK"
    ∷ "auth.st.fail" :> "Échec"
    ∷ "auth.st.warn" :> "Attention"
    ∷ "auth.st.info" :> "À noter"
    ∷ "auth.diag" :> "Derniers diagnostics de connexion"
    ∷ "auth.diagNone" :> "Aucun échec récent."
    ∷ "admin.authentication" :> "Authentification"
    ∷ "admin.src.local" :> "Local"
    ∷ "admin.src.entra" :> "Entra ID"
    ∷ "admin.src.google" :> "Google Workspace"
    ∷ []
