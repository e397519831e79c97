-- ===== src/I18n/Fr/Part4.antt =====
-- frontend/src/i18n/fr.ts, lines 286 to 379.
use scan_tls.Common.{Text, List, [], ◌∷◌, ◌:>◌}

unfoldable pub fr_4 : List (Text × Text)
fr_4 =
    "pol.hashes" :> "Hachages de signature autorisés"
    ∷ "pol.immutableHint"
      :> "Les versions publiées ne sont jamais modifiées : l'enregistrement crée une nouvelle version brouillon."
    ∷ "pol.importYaml" :> "Importer un YAML"
    ∷ "pol.latest" :> "Dernière"
    ∷ "pol.newVersion" :> "Nouvelle version"
    ∷ "pol.policies" :> "Politiques de chiffrement"
    ∷ "pol.profiles" :> "Profils de scan"
    ∷ "pol.publish" :> "Publier"
    ∷ "pol.published" :> "Publiée"
    ∷ "pol.rsa" :> "Taille minimale de clé RSA (bits)"
    ∷ "pol.subtitle"
      :> "Une politique définit ce qui est acceptable ; un profil définit comment les contrôles sont réalisés."
    ∷ "pol.templates" :> "Modèles de rapport"
    ∷ "pol.versions" :> "Versions TLS autorisées"
    ∷ "pref.appearance" :> "Apparence"
    ∷ "pref.dark" :> "Sombre"
    ∷ "pref.light" :> "Clair"
    ∷ "pref.system" :> "Système"
    ∷ "pref.display" :> "Affichage"
    ∷ "pref.language" :> "Langue"
    ∷ "pref.notifications" :> "Notifications par e-mail"
    ∷ "pref.ev.scan_completed" :> "Scan terminé"
    ∷ "pref.ev.scan_failed" :> "Scan en échec"
    ∷ "pref.ev.scan_cancelled" :> "Scan annulé"
    ∷ "pref.palette" :> "Palette"
    ∷ "pref.password" :> "Mot de passe"
    ∷ "pref.passwordChanged" :> "Mot de passe modifié."
    ∷ "prof.crypto" :> "Profil cryptographique"
    ∷ "prof.dns" :> "Résoudre les noms DNS"
    ∷ "prof.expires" :> "Alerte d'expiration du certificat (jours)"
    ∷ "prof.ports" :> "Ports"
    ∷ "prof.portsHint" :> "fast, all, ou une liste comme 443,8443,9000-9010"
    ∷ "prof.revocation" :> "Vérifier la révocation (OCSP/CRL)"
    ∷ "prof.tlsChecks" :> "Contrôles TLS complémentaires"
    ∷ "prof.tlsChecksHint"
      :> "Contrôles supplémentaires non destructifs. Ils sont présentés à côté des résultats et ne modifient pas la note. Décochez tout pour conserver le comportement historique."
    ∷ "prof.addChecks" :> "Ajouter des contrôles"
    ∷ "tls.family.identity" :> "Identité et certificat"
    ∷ "tls.family.handshake" :> "Négociation"
    ∷ "tls.family.groups" :> "Groupes cryptographiques"
    ∷ "tls.check.hostname_san" :> "Identité FQDN / SAN"
    ∷ "tls.check.hostname_san.desc"
      :> "Le certificat couvre le nom réellement demandé (SAN DNS ou IP), indépendamment de la confiance dans la chaîne."
    ∷ "tls.check.ocsp_stapling" :> "OCSP stapling"
    ∷ "tls.check.ocsp_stapling.desc"
      :> "Le serveur fournit lui-même une réponse OCSP valide et à jour pendant la négociation."
    ∷ "tls.check.tls_compression" :> "Compression TLS"
    ∷ "tls.check.tls_compression.desc" :> "La compression au niveau TLS n'est pas négociée (CRIME)."
    ∷ "tls.check.renegotiation" :> "Renégociation"
    ∷ "tls.check.renegotiation.desc"
      :> "Renégociation sécurisée (RFC 5746) et comportement face à une renégociation initiée par le client."
    ∷ "tls.check.fallback_scsv" :> "TLS_FALLBACK_SCSV"
    ∷ "tls.check.fallback_scsv.desc"
      :> "Le serveur refuse une connexion rétrogradée qui signale un repli."
    ∷ "tls.check.extended_master_secret" :> "Extended Master Secret"
    ∷ "tls.check.extended_master_secret.desc"
      :> "Prise en charge de la RFC 7627 pour TLS 1.2 et antérieurs."
    ∷ "tls.check.ecdhe_groups" :> "Groupes ECDHE"
    ∷ "tls.check.ecdhe_groups.desc"
      :> "Groupes de courbes elliptiques dont l'acceptation est prouvée (environ 18 connexions par point de terminaison)."
    ∷ "tls.check.ffdhe_groups" :> "Groupes FFDHE et paramètres DH"
    ∷ "tls.check.ffdhe_groups.desc"
      :> "Taille des paramètres Diffie-Hellman et groupes FFDHE nommés."
    ∷ "tls.family.sessions" :> "Sessions TLS"
    ∷ "tls.family.authentication" :> "Authentification"
    ∷ "tls.family.protocols" :> "Protocoles (STARTTLS)"
    ∷ "tls.check.session_resumption" :> "Reprise de session TLS"
    ∷ "tls.check.session_resumption.desc"
      :> "Le serveur reprend-il une session présentée à nouveau (identifiant, ticket ou PSK TLS 1.3). Une capacité normale, pas un défaut."
    ∷ "tls.check.session_tickets" :> "Tickets de session TLS"
    ∷ "tls.check.session_tickets.desc"
      :> "Émission et utilisabilité des tickets, avec leur durée indicative. Les tickets ne sont jamais conservés."
    ∷ "tls.check.early_data" :> "Early data TLS 1.3 (0-RTT)"
    ∷ "tls.check.early_data.desc"
      :> "Le serveur annonce-t-il le 0-RTT. L'acceptation n'est testée que par la sonde approfondie optionnelle, qui envoie une ligne vide."
    ∷ "tls.check.client_auth" :> "Authentification client (mTLS)"
    ∷ "tls.check.client_auth.desc"
      :> "Un certificat client est-il demandé ou exigé au niveau TLS. Aucun certificat client n'est utilisé."
    ∷ "tls.check.starttls_imap" :> "IMAP STARTTLS"
    ∷ "tls.check.starttls_imap.desc"
      :> "Le service confirme IMAP et passe en TLS avec STARTTLS (sans authentification)."
    ∷ "tls.check.starttls_pop3" :> "POP3 STLS"
    ∷ "tls.check.starttls_pop3.desc"
      :> "Le service confirme POP3 et passe en TLS avec STLS (sans authentification)."
    ∷ "tls.check.starttls_ldap" :> "LDAP StartTLS"
    ∷ "tls.check.starttls_ldap.desc"
      :> "Le service confirme LDAP et accepte l'opération StartTLS (sans bind)."
    ∷ "tls.check.starttls_ftp" :> "FTP AUTH TLS"
    ∷ "tls.check.starttls_ftp.desc"
      :> "Le service confirme FTP et accepte AUTH TLS (sans connexion ni transfert)."
    ∷ "tls.check.starttls_postgres" :> "PostgreSQL SSLRequest"
    ∷ "tls.check.starttls_postgres.desc" :> "Le serveur répond au SSLRequest natif et passe en TLS."
    ∷ "tls.check.starttls_xmpp" :> "XMPP STARTTLS"
    ∷ "tls.check.starttls_xmpp.desc"
      :> "Le serveur annonce et accepte STARTTLS sur le flux client-serveur."
    ∷ "tls.check.starttls_xmpp_server" :> "XMPP STARTTLS serveur à serveur"
    ∷ "tls.check.starttls_xmpp_server.desc"
      :> "Le serveur annonce et accepte STARTTLS sur le flux serveur-serveur (port 5269)."
    ∷ "tls.opt.advanced" :> "Options avancées"
    ∷ "tls.opt.attempts" :> "Tentatives de reprise"
    ∷ "tls.opt.ticket_wait_seconds" :> "Attente du ticket (s)"
    ∷ "tls.opt.probe" :> "Sonde approfondie (envoie une ligne vide en early data)"
    ∷ "tls.opt.ports" :> "Ports (séparés par des virgules, vide = standards)"
    ∷ "run.tlsChecks" :> "Contrôles TLS complémentaires"
    ∷ "run.tlsChecksHint"
      :> "Présentés séparément : ces résultats ne modifient ni la note, ni le statut de conformité, ni les constats."
    ∷ "run.tlsCheck" :> "Contrôle"
    ∷ "run.tlsResult" :> "Résultat"
    ∷ "prof.trust" :> "Valider les chaînes de certificats"
    ∷ "prof.workers" :> "Workers parallèles"
    ∷ "reports.none" :> "Aucun rapport disponible."
    ∷ "run.affected" :> "Points d'accès concernés"
    ∷ "run.cancelling" :> "annulation demandée"
    ∷ "run.certificate" :> "Certificat"
    ∷ []
