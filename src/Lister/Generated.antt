-- ===== src/Lister/Generated.antt =====
-- The listers of pkg/generated/listers/admissionregistration.x-k8s.io/v1alpha1, and that they read the
-- indexer as the generic lister of pkg/controller/lister.go does.
mod Tests
use cel_admission_webhook.Common.{
  String, ◌≡◌, ◌≢◌, refl, ap, Option, none, some, List, [], ◌∷◌, inl, inr, Option-cases,
}
use cel_admission_webhook.Common.Errors.{Error, Result, ok, err, Result-cases}
use cel_admission_webhook.Kinds.{GroupResource}
use cel_admission_webhook.Clientset.{resource_of}
use cel_admission_webhook.Lister.{Indexer, NamespacedLister, found_or, collect, cluster_wide}

module _ {Object Selector : Type 0} (new_not_found : GroupResource → String → Error)
    (indexer : Indexer Object Selector) where
  -- `validatingAdmissionPolicyLister`
  unfoldable pub policy_lister : NamespacedLister Object Selector
  unfolding collect
  policy_lister = record {
    list = λ selector. let (objects, e) = indexer.list_all selector in (collect [] objects, e);
    get = λ name.
        found_or (new_not_found (resource_of "validatingadmissionpolicy") name)
          (indexer.get_by_key name);
  }

  -- `validatingAdmissionPolicyBindingLister`
  unfoldable pub binding_lister : NamespacedLister Object Selector
  unfolding collect
  binding_lister = record {
    list = λ selector. let (objects, e) = indexer.list_all selector in (collect [] objects, e);
    get = λ name.
        found_or (new_not_found (resource_of "validatingadmissionpolicybinding") name)
          (indexer.get_by_key name);
  }

  -- The generic lister of all namespaces, with the same not-found errors.
  abbrev pub generic : NamespacedLister Object Selector
  generic = cluster_wide new_not_found indexer

  -- Two listers read alike, but for the resource that they name when there is no object.
  abbrev pub ReadsAs : String → NamespacedLister Object Selector → Type 0
  ReadsAs resource l =
      ((selector : Selector) → l.list selector ≡ generic.list selector)
      × ((name : String) (answer : Option Object)
          → indexer.get_by_key name ≡ ok answer
          → answer ≢ none
          → l.get name ≡ generic.get name)
      × ((name : String) (e : Error)
          → indexer.get_by_key name ≡ err e
          → l.get name ≡ generic.get name)
      × ((name : String)
          → indexer.get_by_key name ≡ ok none
          → (l.get name
              ≡ err (
                  new_not_found
                    (record { group = "admissionregistration.x-k8s.io"; resource = resource })
                    name))
            × (generic.get name
                ≡ err (
                    new_not_found (record { group = "node.k8s.io"; resource = "validationruleset" })
                      name)))

  found_or-some :
      (missing other : Error) (answer : Option Object)
      → answer ≢ none
      → found_or missing (ok answer) ≡ found_or other (ok answer)
  found_or-some missing other none h = absurd (h refl)
  found_or-some missing other (some obj) h = refl

  -- The generated listers list what the generic lister lists and get what it gets; an object that is not
  -- there they report under their own resource of the custom group, and the generic lister as a
  -- `validationruleset` of the group node.k8s.io.
  pub generated-ReadsAs :
      ReadsAs "validatingadmissionpolicy" policy_lister
      × ReadsAs "validatingadmissionpolicybinding" binding_lister
  unfolding policy_lister binding_lister cluster_wide
  generated-ReadsAs = (
    (
      (λ selector. refl),
      (λ name answer read there. rw read (found_or-some _ _ answer there)),
      (λ name e read. rw read refl),
      (λ name read. rw read (refl, refl)),
    ),
    (
      (λ selector. refl),
      (λ name answer read there. rw read (found_or-some _ _ answer there)),
      (λ name e read. rw read refl),
      (λ name read. rw read (refl, refl)),
    ),
  )
