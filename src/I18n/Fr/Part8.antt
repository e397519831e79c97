-- ===== src/I18n/Fr/Part8.antt =====
-- frontend/src/i18n/fr.ts, lines 662 to 755.
use scan_tls.Common.{Text, List, [], ◌∷◌, ◌:>◌}

unfoldable pub fr_8 : List (Text × Text)
fr_8 =
    "ts.subject" :> "Sujet"
    ∷ "ts.issuer" :> "Émetteur"
    ∷ "ts.serial" :> "Numéro de série"
    ∷ "ts.validity" :> "Validité"
    ∷ "ts.key" :> "Clé"
    ∷ "ts.signature" :> "Algorithme de signature"
    ∷ "ts.fingerprint" :> "Empreinte SHA-256"
    ∷ "ts.basic" :> "Basic Constraints"
    ∷ "ts.keyUsage" :> "Key Usage"
    ∷ "ts.expired" :> "Expiré"
    ∷ "ts.expiresIn" :> "Expire dans {days} j"
    ∷ "ts.duplicate" :> "doublon"
    ∷ "ts.invalid" :> "Refusé"
    ∷ "ts.create" :> "Créer et importer"
    ∷ "ts.publish" :> "Publier une nouvelle version"
    ∷ "ts.modeAdd" :> "Ajouter au contenu actuel"
    ∷ "ts.modeReplace" :> "Remplacer tout le contenu"
    ∷ "ts.comment" :> "Commentaire"
    ∷ "ts.versions" :> "Versions"
    ∷ "ts.profiles" :> "Profils utilisant ce magasin"
    ∷ "ts.noProfile" :> "Aucun profil n'utilise ce magasin."
    ∷ "ts.scansUsing" :> "{n} scan(s) ont utilisé ce magasin."
    ∷ "ts.confirmPublish"
      :> "Publier une nouvelle version ? Les scans déjà exécutés conservent la version utilisée ; les nouveaux scans utiliseront celle-ci."
    ∷ "ts.confirmDeactivate"
      :> "Désactiver ce magasin ? Les profils qui le sélectionnent ne pourront plus lancer de scan tant qu'il n'est pas réactivé."
    ∷ "ts.confirmDelete"
      :> "Supprimer définitivement ce magasin ? Il n'est référencé par aucun profil ni scan."
    ∷ "ts.confirmRemove"
      :> "Retirer ce certificat ? Une nouvelle version est publiée sans lui ; les anciennes versions le conservent."
    ∷ "ts.remove" :> "Retirer"
    ∷ "ts.delete" :> "Supprimer"
    ∷ "ts.noFile" :> "Sélectionnez au moins un fichier."
    ∷ "ts.preview" :> "Aperçu"
    ∷ "ts.details" :> "Détails"
    ∷ "ts.hasExpired" :> "contient un certificat expiré"
    ∷ "ts.inactive" :> "inactif"
    ∷ "ts.publicName" :> "Autorités publiques (intégrées)"
    ∷ "prof.trustPublic" :> "Autorités publiques intégrées"
    ∷ "prof.trustPrivate" :> "Magasins de confiance privés"
    ∷ "prof.trustNone"
      :> "Aucun magasin privé disponible. Un administrateur peut en importer un dans Administration > Autorités de confiance."
    ∷ "prof.trustStoreInfo" :> "v{version} · {count} certificat(s)"
    ∷ "run.pkiTitle" :> "Confiance PKI"
    ∷ "run.pkiHint"
      :> "Le verdict de chaîne indique seulement si la chaîne mène à une autorité sélectionnée pour ce scan. Il ne dit pas que le nom correspond (FQDN/SAN), que le certificat est encore valide ni qu'il n'est pas révoqué : ces contrôles ont leurs propres colonnes."
    ∷ "run.pkiStores" :> "Magasins de confiance utilisés par ce scan"
    ∷ "run.pkiTrust" :> "Verdict de chaîne"
    ∷ "run.pkiBy" :> "Validé par"
    ∷ "run.pkiAnchor" :> "Autorité de confiance"
    ∷ "run.pkiReason" :> "Motif"
    ∷ "run.pkiName" :> "Nom (FQDN/SAN)"
    ∷ "run.pkiRevocation" :> "Révocation"
    ∷ "run.pkiCert" :> "Certificat"
    ∷ "run.pkiNotTested" :> "Non testé"
    ∷ "pki.PUBLIC_TRUSTED" :> "Autorité publique"
    ∷ "pki.PRIVATE_TRUSTED" :> "Autorité privée"
    ∷ "pki.UNTRUSTED" :> "Non approuvé"
    ∷ "pki.NOT_TESTED" :> "Non testé"
    ∷ "pki.ERROR" :> "Erreur"
    ∷ "dd.intro"
      :> "Découvre les noms d'un domaine avec plusieurs méthodes indépendantes, les compare à vos cibles, puis vous laisse ajouter ou enrichir des cibles en une seule opération. Rien n'est scanné et rien ne change avant votre confirmation."
    ∷ "dd.step.config" :> "Configuration"
    ∷ "dd.step.run" :> "Découverte"
    ∷ "dd.step.results" :> "Résultats"
    ∷ "dd.step.review" :> "Ajout / enrichissement"
    ∷ "dd.mode" :> "Mode"
    ∷ "dd.mode.fast" :> "Rapide"
    ∷ "dd.mode.advanced" :> "Avancé"
    ∷ "dd.mode.fastHint"
      :> "Réponse rapide avec une bonne couverture : enregistrements DNS, tentative de transfert de zone, dictionnaire court et Certificate Transparency pour les domaines publics."
    ∷ "dd.methods" :> "Méthodes"
    ∷ "dd.m.dns" :> "Enregistrements DNS (A, AAAA, NS, MX, SRV)"
    ∷ "dd.m.axfr" :> "Transfert de zone (AXFR)"
    ∷ "dd.m.dictionary" :> "Sous-domaines courants (dictionnaire)"
    ∷ "dd.m.ct" :> "Certificate Transparency (domaines publics uniquement)"
    ∷ "dd.m.reverse" :> "DNS inverse (PTR)"
    ∷ "dd.ctOff" :> "Désactivé par l'administrateur."
    ∷ "dd.options" :> "Options avancées"
    ∷ "dd.dnsServer" :> "Serveur DNS à interroger"
    ∷ "dd.dnsSystem" :> "Résolveur configuré sur le worker"
    ∷ "dd.dnsNone"
      :> "Aucun serveur DNS interne n'est déclaré. Un administrateur peut les déclarer dans Administration > Paramètres."
    ∷ "dd.axfrServers" :> "Tenter aussi un transfert de zone depuis"
    ∷ "dd.dictionary" :> "Dictionnaire"
    ∷ "dd.dict.small" :> "Court (rapide)"
    ∷ "dd.dict.extended" :> "Étendu"
    ∷ "dd.dict.custom" :> "Personnalisé"
    ∷ "dd.customWords" :> "Un nom (label) par ligne"
    ∷ "dd.reverse" :> "Adresses IP ou réseaux à résoudre en inverse (256 adresses max)"
    ∷ "dd.timeout" :> "Délai par requête (s)"
    ∷ "dd.concurrency" :> "Requêtes en parallèle"
    ∷ "dd.start" :> "Lancer la découverte"
    ∷ "dd.authorize"
      :> "Je confirme être autorisé à interroger ce domaine et les serveurs DNS sélectionnés."
    ∷ "dd.running" :> "Découverte en cours"
    ∷ "dd.queued" :> "En attente du worker…"
    ∷ "dd.names" :> "{n} nom(s) unique(s)"
    ∷ "dd.queries" :> "{n} requêtes"
    ∷ "dd.cancel" :> "Annuler la découverte"
    ∷ "dd.partialNote"
      :> "La découverte a été interrompue : les résultats ci-dessous sont partiels."
    ∷ "dd.m.status.pending" :> "En attente"
    ∷ "dd.m.status.running" :> "En cours"
    ∷ "dd.m.status.done" :> "Terminé"
    ∷ []
