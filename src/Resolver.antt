-- ===== src/Resolver.antt =====
-- pkg/controller/schemaresolver/resolver.go: a cache of schemas before discovery, and the handlers
-- of CRD events that purge it. A critical section under the lock is one step. Discovery
-- (`ClientDiscoveryResolver.ResolveSchema`) is an argument of each call, for its answer changes.
pub mod Laws
pub mod History
mod Tests
use cel_admission_webhook.Common.{
  String, Bool, true, false, not, ◌&&◌, Option, none, some, List, [], ◌∷◌, ◌==◌, if◌then◌else◌,
}
use cel_admission_webhook.Common.Errors.{Error, Result, ok, err}
use cel_admission_webhook.Kinds.{GroupVersionKind, GroupKind, group_kind, gvk_eq}

-- The fields that are read of a CustomResourceDefinition, with the kind that it defines.
pub record Crd : Type 0 where
  pub object_kind : GroupVersionKind
  pub spec_group : String
  pub spec_kind : String

pub data CrdEvent : Type 0 where
  added : Crd → CrdEvent
  updated : Crd → Crd → CrdEvent
  deleted : Crd → CrdEvent

pub record CacheEntry (Schema : Type 0) : Type 0 where
  pub error : Option Error
  pub schema : Option Schema

abbrev pub SchemaCache : Type 0 → Type 0
SchemaCache Schema = List (GroupVersionKind × CacheEntry Schema)

module _ {Schema : Type 0} where
  unfoldable pub lookup : GroupVersionKind → SchemaCache Schema → Option (CacheEntry Schema)
  lookup gvk [] = none
  lookup gvk ((k, e) ∷ cache) = if gvk_eq k gvk then some e else lookup gvk cache

  -- `r.cache[gvk] = res`
  pub store : GroupVersionKind → CacheEntry Schema → SchemaCache Schema → SchemaCache Schema
  store gvk e [] = (gvk, e) ∷ []
  store gvk e ((k, f) ∷ cache) =
      if gvk_eq k gvk then (gvk, e) ∷ cache else (k, f) ∷ store gvk e cache

  -- `purgeCRDFromCache`
  unfoldable pub purge : GroupKind → SchemaCache Schema → SchemaCache Schema
  purge gk [] = []
  purge gk ((k, e) ∷ cache) =
      if k.group == gk.group && k.kind == gk.kind then purge gk cache else (k, e) ∷ purge gk cache

  -- `resolveSchemaFromCache`, under the read lock.
  unfoldable pub resolve_from_cache :
      GroupVersionKind → SchemaCache Schema → Option (CacheEntry Schema)
  unfolding lookup
  resolve_from_cache gvk cache = lookup gvk cache

  -- The second half of `ResolveSchema`, under the write lock.
  unfoldable pub fill :
      GroupVersionKind
      → (GroupVersionKind → CacheEntry Schema)
      → SchemaCache Schema
      → CacheEntry Schema × SchemaCache Schema
  unfolding store
  fill gvk discover cache = let res = discover gvk in (res, store gvk res cache)

  -- `ResolveSchema` with no other call between its halves.
  unfoldable pub resolve_schema :
      GroupVersionKind
      → (GroupVersionKind → CacheEntry Schema)
      → SchemaCache Schema
      → CacheEntry Schema × SchemaCache Schema
  unfolding resolve_from_cache fill
  resolve_schema gvk discover cache = elim (resolve_from_cache gvk cache) [
    | some entry ↦ (entry, cache)
    | none ↦ fill gvk discover cache
  ]

  -- The handlers that `Run` registers.
  unfoldable pub handle_crd : CrdEvent → SchemaCache Schema → SchemaCache Schema
  handle_crd (added crd) cache = purge (group_kind crd.object_kind) cache
  handle_crd (updated old new) cache =
      purge (group_kind new.object_kind) (purge (group_kind old.object_kind) cache)
  handle_crd (deleted crd) cache = purge (group_kind crd.object_kind) cache

pub record Controller (Discovery CrdInformer Schema : Type 0) : Type 0 where
  pub discovery : Discovery
  pub cache : SchemaCache Schema
  pub crd_informer : CrdInformer

-- `New`
unfoldable pub new_controller :
    {Discovery CrdInformer Schema : Type 0}
    → CrdInformer
    → Discovery
    → Controller Discovery CrdInformer Schema
new_controller crd_informer disco = record {
  discovery = disco;
  cache = [];
  crd_informer = crd_informer;
}

-- `Run`: the handlers are added, it waits for the end of the context, and what AddEventHandler
-- answered is removed again, nil after an error. `Registry` is the informer with its handlers.
unfoldable pub run_controller :
    {Handle Registry : Type 0}
    → (Registry → Result Handle × Registry)
    → (Option Handle → Registry → Registry)
    → (Registry → Registry)
    → Registry
    → Option Error × Registry
run_controller add_event_handler remove_event_handler until_done informer =
    let (answer, registered) = add_event_handler informer in
    elim answer [
      | err e ↦ (some e, remove_event_handler none registered)
      | ok handle ↦ (none, remove_event_handler (some handle) (until_done registered))
    ]
