-- ===== src/Controller/Reconcile.antt =====
-- What `reconcile` reads, and what the reconciler is told.
use cel_admission_webhook.Common.{
  String, ◌≡◌, refl, inl, inr, true, Option, none, some, ◌==◌, if◌then◌else◌, Bool-cases,
}
use cel_admission_webhook.Common.Errors.{Error, Result, ok, err}
use cel_admission_webhook.Kinds.{GroupResource}
use cel_admission_webhook.Lister.{
  namespaced, cluster_wide, found_or, no_resource, validation_rule_set,
}
use cel_admission_webhook.Controller.{Environment, reconcile, lister_of, got}
use Prim.Native.String.{◌++◌ as str_append}

-- The key of an object, as `MetaNamespaceKeyFunc` documents it: <namespace>/<name>, or <name> where
-- the namespace is empty.
abbrev pub join_key : String → String → String
join_key namespace name =
    if namespace == "" then name else str_append namespace (str_append "/" name)

module _ (env : Environment) where
  open env use {Object, W, split_key, indexer, new_not_found, is_not_found, reconciler}

  -- What the client library documents: `SplitMetaNamespaceKey` undoes `MetaNamespaceKeyFunc` at a
  -- namespace and a name of a key, and `IsNotFound` knows the errors of `NewNotFound`.
  pub record KeyLaws (namespace name : String) : Type 0 where
    pub splits : split_key (join_key namespace name) ≡ ok (namespace, name)
    pub not_found : (resource : GroupResource) → is_not_found (new_not_found resource name) ≡ true

  -- The reconciler's view of an entry of the cache: the object, or none if it is gone; a failure to
  -- read is handed back, and the reconciler is not called.
  abbrev pub told : String → String → Result (Option Object) → W → Option Error × W
  told namespace name (ok entry) w = reconciler namespace name entry w
  told namespace name (err e) w =
      if is_not_found e then reconciler namespace name none w else (some e, w)

  -- The resource that a not-found error names.
  abbrev missing_resource : String → GroupResource
  missing_resource namespace = if namespace == "" then validation_rule_set else no_resource

  lister_of-get :
      (namespace name : String)
      → (lister_of env namespace).get name
        ≡ found_or
            (new_not_found (missing_resource namespace) name)
            (indexer.get_by_key (join_key namespace name))
  unfolding lister_of namespaced cluster_wide
  lister_of-get namespace name = elim (Bool-cases (namespace == "")) [
    | inl all' ↦ rw all'
    | inr one' ↦ rw one'
  ]

  got-told :
      (namespace name : String) (missing : Error) (r : Result (Option Object)) (w : W)
      → is_not_found missing ≡ true
      → got env namespace name (found_or missing r) w ≡ told namespace name r w
  unfolding got
  got-told namespace name missing (ok (some obj)) w h = refl
  got-told namespace name missing (ok none) w h = rw h
  got-told namespace name missing (err e) w h = refl

  -- The key that an object was queued with is the very key that `reconcile` looks up: with a
  -- namespace or without, the reconciler is called with the object's namespace, its name and what
  -- the cache holds under its key now, none for a deleted object.
  pub reconcile-join_key :
      (namespace name : String) (w : W)
      → KeyLaws namespace name
      → reconcile env (join_key namespace name) w
        ≡ told namespace name (indexer.get_by_key (join_key namespace name)) w
  unfolding reconcile
  reconcile-join_key namespace name w laws =
      rw (laws.splits, reconcile)
        (rw (lister_of-get namespace name) (
          got-told namespace name (new_not_found (missing_resource namespace) name)
            (indexer.get_by_key (join_key namespace name)) w
            (laws.not_found (missing_resource namespace))))

  -- A key that does not split is dropped: nothing is read and it is not tried again.
  pub reconcile-bad_key :
      (k : String) (e : Error) (w : W) → split_key k ≡ err e → reconcile env k w ≡ (none, w)
  unfolding reconcile
  reconcile-bad_key k e w h = rw (h, reconcile)
