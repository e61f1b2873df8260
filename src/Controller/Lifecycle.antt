-- ===== src/Controller/Lifecycle.antt =====
-- `Run` of pkg/controller/generic.go over time: the wait for the cache, the workers with their
-- WaitGroup, and the shutdown of the queue. A run is a list of events; an event that cannot happen in a
-- state gives `none`. `wait.Until` calls `runWorker` only while the context is open, and the queue gives
-- its items out until it is empty, and after `ShutDownWithDrain` takes no more; that call returns when no
-- item is being processed.
pub mod Exit
mod Tests
use cel_admission_webhook.Common.{
  ℕ, zero, suc, ◌+◌, ◌-◌, Bool, true, false, ◌&&◌, ◌||◌, not, Option, none, some, List, [], ◌∷◌,
  ◌++◌, nat_eq, if◌then◌else◌,
}
use cel_admission_webhook.Common.Errors.{Error}
use cel_admission_webhook.Controller.{Item, run_result}

-- Where `Run` stands; at the end, with its result.
pub data Phase : Type 0 where
  syncing : Phase
  running : Phase
  draining : Phase
  joining : Phase
  returned : Option Error → Phase

-- `idle` counts the workers outside `runWorker`, `inside` those in it without an item, `busy` holds the
-- items of the others. `context_error` is `ctx.Err()`. `entered` says that a worker has called
-- `runWorker`.
pub record State : Type 0 where
  pub phase : Phase
  pub context_error : Option Error
  pub idle : ℕ
  pub inside : ℕ
  pub busy : List Item
  pub queue : List Item
  pub shutting : Bool
  pub wg : ℕ
  pub entered : Bool

pub data Event : Type 0 where
  sync_ends : Bool → Event
  cancel : Error → Event
  enters : Event
  quits : Event
  takes : Event
  finishes : ℕ → Event
  leaves : Event
  queued : Item → Event
  sees_end : Event
  drained : Event
  group_ends : Event

abbrev pub is_empty : List Item → Bool
is_empty [] = true
is_empty (item ∷ items) = false

abbrev pub is_some : Option Error → Bool
is_some none = false
is_some (some e) = true

unfoldable pub start : State
start = record {
  phase = syncing;
  context_error = none;
  idle = 0;
  inside = 0;
  busy = [];
  queue = [];
  shutting = false;
  wg = 0;
  entered = false;
}

-- The loop that starts the workers.
unfoldable pub start_workers : ℕ → State → State
start_workers zero s = s
start_workers (suc n) s = start_workers n (record s { wg = s.wg + 1; idle = s.idle + 1 })

-- Items are taken in their order.
take_first : State → List Item → Option State
take_first s [] = none
take_first s (item ∷ items) =
    if nat_eq s.inside 0
    then none
    else some (record s { inside = s.inside - 1; busy = item ∷ s.busy; queue = items })

remove_at : ℕ → List Item → Option (List Item)
remove_at n [] = none
remove_at zero (item ∷ items) = some items
remove_at (suc n) (item ∷ items) = elim (remove_at n items) [
  | none ↦ none
  | some rest ↦ some (item ∷ rest)
]

-- Any worker may finish first.
end_one : ℕ → State → Option State
unfolding remove_at
end_one n s = elim (remove_at n s.busy) [
  | none ↦ none
  | some rest ↦ some (record s { inside = s.inside + 1; busy = rest })
]

step_sync : ℕ → State → Bool → Phase → Option State
unfolding start_workers
step_sync workers s true syncing = some (start_workers workers (record s { phase = running }))
step_sync workers s false syncing =
    some (record s { phase = returned (run_result false s.context_error s.context_error) })
step_sync workers s synced _ = none

step_end : State → Phase → Option State
step_end s running =
    if is_some s.context_error then some (record s { phase = draining; shutting = true }) else none
step_end s _ = none

step_drained : State → Phase → Option State
step_drained s draining = if is_empty s.busy then some (record s { phase = joining }) else none
step_drained s _ = none

step_joined : State → Phase → Option State
step_joined s joining =
    if nat_eq s.wg 0
    then some (record s { phase = returned (run_result true s.context_error s.context_error) })
    else none
step_joined s _ = none

unfoldable pub step : ℕ → State → Event → Option State
unfolding take_first end_one step_sync step_end step_drained step_joined
step workers s (sync_ends synced) = step_sync workers s synced s.phase
step workers s (cancel e) =
    some (if is_some s.context_error then s else record s { context_error = some e })
step workers s enters =
    if nat_eq s.idle 0 || is_some s.context_error
    then none
    else some (record s { idle = s.idle - 1; inside = s.inside + 1; entered = true })
step workers s quits =
    if nat_eq s.idle 0 || not (is_some s.context_error)
    then none
    else some (record s { idle = s.idle - 1; wg = s.wg - 1 })
step workers s takes = take_first s s.queue
step workers s (finishes n) = end_one n s
step workers s leaves =
    if nat_eq s.inside 0 || not (s.shutting && is_empty s.queue)
    then none
    else some (record s { inside = s.inside - 1; wg = s.wg - 1 })
step workers s (queued item) =
    some (if s.shutting then s else record s { queue = s.queue ++ item ∷ [] })
step workers s sees_end = step_end s s.phase
step workers s drained = step_drained s s.phase
step workers s group_ends = step_joined s s.phase

unfoldable pub run : ℕ → State → List Event → Option State
run workers s [] = some s
run workers s (e ∷ events) = elim (step workers s e) [ none ↦ none | some t ↦ run workers t events ]
