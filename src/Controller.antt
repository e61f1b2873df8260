-- ===== src/Controller.antt =====
-- pkg/controller/generic.go: the generic controller. Its work queue, the informer's cache and the
-- reconciler stand outside: calls of the queue are recorded in order as `QueueCall`s, and the
-- reconciler changes a state `W` of its own.
pub mod Events
pub mod Reconcile
pub mod Worker
pub mod Lifecycle
mod Tests
use cel_admission_webhook.Common.{
  ℕ, String, Bool, true, false, Option, none, some, List, [], ◌∷◌, ◌++◌, ◌==◌, nat_eq,
  if◌then◌else◌,
}
use cel_admission_webhook.Common.Errors.{Error, errorf, Result, ok, err}
use cel_admission_webhook.Kinds.{GroupResource}
use cel_admission_webhook.Lister.{Indexer, NamespacedLister, namespaced, cluster_wide}
use Prim.Native.String.{◌++◌ as str_append}

-- What comes off the queue is an `interface{}`: a text or anything else.
pub data Item : Type 0 where
  key : String → Item
  other : ℕ → Item

pub data QueueCall : Type 0 where
  add add_rate_limited : String → QueueCall
  forget done : Item → QueueCall

pub record ControllerOptions : Type 0 where
  pub name : String
  pub workers : ℕ

-- The defaults that `New` fills in; `type_name` is the `%T` of the object type.
unfoldable pub with_defaults : String → ControllerOptions → ControllerOptions
with_defaults type_name options = record {
  name = if options.name == "" then str_append type_name "-controller" else options.name;
  workers = if nat_eq options.workers 0 then 2 else options.workers;
}

-- What the controller calls outside the repository.
pub record Environment : Type 1 where
  pub Object : Type 0
  pub Selector : Type 0
  -- the reconciler's state
  pub W : Type 0
  -- `cache.MetaNamespaceKeyFunc`, `meta.Accessor(…).GetResourceVersion()`
  pub key_of : Object → Result String
  pub version_of : Object → Result String
  -- `cache.SplitMetaNamespaceKey`: the namespace and the name
  pub split_key : String → Result (String × String)
  pub indexer : Indexer Object Selector
  pub new_not_found : GroupResource → String → Error
  pub is_not_found : Error → Bool
  pub reconciler : String → String → Option Object → W → Option Error × W

module _ (env : Environment) where
  open env use {
    Object, Selector, W, key_of, version_of, split_key, indexer, new_not_found, is_not_found,
    reconciler,
  }

  pub data Event : Type 0 where
    added : Object → Event
    updated : Object → Object → Event
    deleted : Object → Event

  -- `enqueue`: the calls of the queue; an error is only reported.
  enqueue : Object → List QueueCall
  enqueue obj = elim (key_of obj) [ err e ↦ [] | ok k ↦ add k ∷ [] ]

  update_func : Object → Result String → Result String → List QueueCall
  unfolding enqueue
  update_func new (ok old_version) (ok new_version) =
      if old_version == new_version then [] else enqueue new
  update_func new _ _ = []

  -- The handlers of the informer's events.
  unfoldable pub on_event : Event → List QueueCall
  unfolding update_func
  on_event (added obj) = enqueue obj
  on_event (updated old new) = update_func new (version_of old) (version_of new)
  on_event (deleted obj) = enqueue obj

  -- `if len(namespace) > 0`
  lister_of : String → NamespacedLister Object Selector
  lister_of namespace =
      if namespace == ""
      then cluster_wide new_not_found indexer
      else namespaced new_not_found indexer namespace

  -- `reconcile` behind `lister.Get`.
  got : String → String → Result Object → W → Option Error × W
  got namespace name (ok obj) w = reconciler namespace name (some obj) w
  got namespace name (err e) w =
      if is_not_found e then reconciler namespace name none w else (some e, w)

  unfoldable pub reconcile : String → W → Option Error × W
  unfolding lister_of got
  reconcile k w = elim (split_key k) [
    | err e ↦ (none, w)
    | ok (namespace, name) ↦ got namespace name ((lister_of namespace).get name) w
  ]

  -- The calls of the queue for one item, and the reconciler's state: the body of the loop of
  -- `runWorker` with its deferred `Done`.
  finish_item : String → Option Error × W → List QueueCall × W
  finish_item k (some e, w) = (add_rate_limited k ∷ done (key k) ∷ [], w)
  finish_item k (none, w) = (forget (key k) ∷ done (key k) ∷ [], w)

  unfoldable pub process_item : Item → W → List QueueCall × W
  unfolding finish_item
  process_item (other n) w = (forget (other n) ∷ done (other n) ∷ [], w)
  process_item (key k) w = finish_item k (reconcile k w)

  -- `runWorker` on what `queue.Get` answers, one after the other: `none` is a shutdown.
  unfoldable pub run_worker : List (Option Item) → W → List QueueCall × W
  run_worker [] w = ([], w)
  run_worker (none ∷ gets) w = ([], w)
  run_worker (some item ∷ gets) w =
      let (calls, w') = process_item item w in
      let (more, w'') = run_worker gets w' in (calls ++ more, w'')

-- The result of `Run` from the wait for the cache: whether it synced, and the context's error then
-- and at the end.
unfoldable pub run_result : Bool → Option Error → Option Error → Option Error
run_result false none at_end = some (errorf "cache sync failed")
run_result false (some e) at_end = some e
run_result true at_sync at_end = at_end
