-- ===== src/I18n/Fr/Part9.antt =====
-- frontend/src/i18n/fr.ts, lines 756 to 849.
use scan_tls.Common.{Text, List, [], ◌∷◌, ◌:>◌}

unfoldable pub fr_9 : List (Text × Text)
fr_9 =
    "dd.m.status.partial" :> "Partiel"
    ∷ "dd.m.status.failed" :> "Échec"
    ∷ "dd.m.status.skipped" :> "Ignoré"
    ∷ "dd.axfrServersTitle" :> "Transfert de zone, par serveur"
    ∷ "dd.secOpen"
      :> "Un serveur autoritaire public a accepté le transfert de zone : n'importe qui peut lister cette zone. C'est une exposition DNS à corriger, pas un résultat TLS."
    ∷ "dd.xfr.transferred" :> "Transfert accepté"
    ∷ "dd.xfr.refused" :> "Refusé (normal)"
    ∷ "dd.xfr.timeout" :> "Délai dépassé"
    ∷ "dd.xfr.unreachable" :> "Injoignable"
    ∷ "dd.xfr.unresolved" :> "Adresse introuvable"
    ∷ "dd.xfr.skipped" :> "Ignoré (adresse locale)"
    ∷ "dd.xfr.too_large" :> "Trop volumineux, arrêté"
    ∷ "dd.xfr.error" :> "Erreur"
    ∷ "dd.inv.NEW" :> "Nouveau"
    ∷ "dd.inv.EXISTING" :> "Existant"
    ∷ "dd.inv.ENRICHABLE" :> "À enrichir"
    ∷ "dd.inv.CHANGED" :> "Modifié"
    ∷ "dd.inv.OUT_OF_SCOPE" :> "Hors périmètre"
    ∷ "dd.all" :> "Tous"
    ∷ "dd.search" :> "Rechercher un nom ou une adresse"
    ∷ "dd.source" :> "Source"
    ∷ "dd.inventory" :> "Inventaire"
    ∷ "dd.fqdn" :> "Nom (FQDN)"
    ∷ "dd.ip" :> "Adresses"
    ∷ "dd.type" :> "Type"
    ∷ "dd.select" :> "Sélection"
    ∷ "dd.selectNew" :> "Sélectionner les nouveaux"
    ∷ "dd.selectEnrich" :> "Sélectionner les enrichissables"
    ∷ "dd.selectNone" :> "Vider la sélection"
    ∷ "dd.selected" :> "{n} sélectionné(s)"
    ∷ "dd.of" :> "{shown} sur {total}"
    ∷ "dd.prev" :> "Précédent"
    ∷ "dd.next" :> "Suivant"
    ∷ "dd.wildcard" :> "wildcard"
    ∷ "dd.historical" :> "historique (ne résout pas)"
    ∷ "dd.ptrMismatch" :> "PTR différent du DNS direct"
    ∷ "dd.ambiguous" :> "Plusieurs cibles : choisir"
    ∷ "dd.choose" :> "Choisir une cible"
    ∷ "dd.review" :> "Récapitulatif"
    ∷ "dd.continue" :> "Vérifier la sélection"
    ∷ "dd.back" :> "Retour"
    ∷ "dd.ports" :> "Ports des nouvelles cibles (vide = ports du profil)"
    ∷ "dd.group" :> "Groupe"
    ∷ "dd.groupNone" :> "Aucun groupe"
    ∷ "dd.groupNew" :> "Créer un nouveau groupe…"
    ∷ "dd.groupName" :> "Nom du nouveau groupe"
    ∷ "dd.confirmBusiness"
      :> "Appliquer aussi les tags, SI et groupe aux cibles qui existent déjà ({n}). Rien de déjà saisi n'est remplacé : ce sont des ajouts."
    ∷ "dd.willCreate" :> "{n} nouvelle(s) cible(s) seront créées"
    ∷ "dd.willReuse" :> "{n} cible(s) existante(s) conservée(s)"
    ∷ "dd.willEnrich" :> "{n} cible(s) enrichie(s) avec des observations DNS"
    ∷ "dd.willSkip" :> "{n} non traitée(s)"
    ∷ "dd.cov.title" :> "Couverture par les scans"
    ∷ "dd.cov.col" :> "Déjà scanné ?"
    ∷ "dd.cov.summary"
      :> "{covered} nom(s) déjà couvert(s) par un scan, {recent} scanné(s) depuis moins de {days} jours : décochés par défaut dans les sélections groupées."
    ∷ "dd.cov.include" :> "Inclure aussi les noms déjà couverts dans les sélections groupées"
    ∷ "dd.cov.covered" :> "Couvert"
    ∷ "dd.cov.via.target" :> "cible directe"
    ∷ "dd.cov.via.group" :> "via le groupe {group}"
    ∷ "dd.cov.via.address" :> "via {group}"
    ∷ "dd.cov.scheduled" :> "planifié"
    ∷ "dd.cov.recent" :> "Scanné récemment"
    ∷ "dd.cov.shared" :> "Même adresse que {value}"
    ∷ "dd.scan" :> "Scan"
    ∷ "dd.scan.none" :> "Ne pas toucher aux scans"
    ∷ "dd.scan.existing" :> "Ajouter le groupe à des scans existants"
    ∷ "dd.scan.new" :> "Créer un nouveau scan sur ce groupe"
    ∷ "dd.scan.noDefinitions" :> "Aucun scan défini."
    ∷ "dd.scan.chooseProfile" :> "Choisir un profil"
    ∷ "dd.scan.name" :> "Nom du scan"
    ∷ "dd.scan.profile" :> "Profil"
    ∷ "dd.scan.policies" :> "Politiques"
    ∷ "dd.scan.scheduled" :> "planifié : les nouveaux noms seront scannés à la prochaine exécution"
    ∷ "dd.scan.plan.add_group" :> "Le groupe sera ajouté au scan « {name} »"
    ∷ "dd.scan.plan.already" :> "Le scan « {name} » analyse déjà ce groupe"
    ∷ "dd.scan.plan.create" :> "Le scan « {name} » sera créé (non lancé)"
    ∷ "dd.noLaunch" :> "Aucun scan n'est lancé : vous le lancerez vous-même depuis Scans."
    ∷ "dd.defaultGroup" :> "Découverte"
    ∷ "dd.defaultScan" :> "Scan"
    ∷ "dd.settingsRecent" :> "Scan récent (jours)"
    ∷ "dd.settingsRecentHint"
      :> "Un nom scanné depuis moins de ce nombre de jours est signalé et décoché par défaut dans l'import."
    ∷ "dd.noScan" :> "Aucun scan n'est lancé et aucune définition de scan n'est modifiée."
    ∷ "dd.apply" :> "Ajouter / Enrichir les Targets"
    ∷ "dd.done"
      :> "Terminé : {create} créée(s), {reuse} conservée(s), {enrich} enrichie(s), {skipped} non traitée(s)."
    ∷ "dd.sum.found" :> "{n} hôte(s) découvert(s)"
    ∷ "dd.addNew" :> "Ajouter les nouvelles Targets"
    ∷ "dd.addSelection" :> "Ajouter / Enrichir la sélection"
    ∷ "dd.addNew.none" :> "Aucune nouvelle Target à ajouter."
    ∷ "dd.tag.option" :> "Ajouter le tag « {tag} »"
    ∷ "dd.tag.hint"
      :> "Un filtre pratique, pas la preuve de l'origine : chaque Target garde la méthode DNS, le domaine et la date de sa découverte. Une Target déjà présente ne reçoit le tag qu'après votre confirmation."
    ∷ "dd.group.proposedNew" :> "{name} (proposé, sera créé)"
    ∷ "dd.group.proposedExisting" :> "{name} (proposé, groupe existant, réutilisé)"
    ∷ "dd.group.hint"
      :> "Un groupe par domaine, sans date : relancer la découverte alimente le même groupe."
    ∷ "dd.adv.scans" :> "Options avancées — Scans"
    ∷ "dd.sum.known" :> "{n} déjà présente(s) dans Targets, sans modification"
    ∷ []
