-- ===== src/Controller/Lifecycle/Tests.antt =====
-- Runs of the generic controller.
use cel_admission_webhook.Common.{◌≡◌, refl, ◌≤◌, ◌⊎◌, true, false, some, List, [], ◌∷◌, length}
use cel_admission_webhook.Common.Errors.{Error, errorf}
use cel_admission_webhook.Controller.{key, run_result}
use cel_admission_webhook.Controller.Lifecycle.{
  returned, State, Event, sync_ends, cancel, enters, quits, takes, finishes, leaves, queued,
  sees_end, drained, group_ends, is_empty, start, start_workers, take_first, end_one, remove_at,
  step_sync, step_end, step_drained, step_joined, step, run,
}
use cel_admission_webhook.Controller.Lifecycle.Exit.{has_returned, has_failed, run-drained}

abbrev canceled : Error
canceled = errorf "context canceled"

abbrev one_item : List Event
one_item =
    sync_ends true
    ∷ queued (key "ns/web")
    ∷ enters
    ∷ cancel canceled
    ∷ sees_end
    ∷ quits
    ∷ takes
    ∷ finishes 0
    ∷ drained
    ∷ leaves
    ∷ group_ends
    ∷ []

abbrev over : State
over = record {
  phase = returned (some canceled);
  context_error = some canceled;
  idle = 0;
  inside = 0;
  busy = [];
  queue = [];
  shutting = true;
  wg = 0;
  entered = true;
}

one_item_ran : run 2 start one_item ≡ some over
unfolding run start step start_workers take_first end_one remove_at step_sync step_end step_drained
    step_joined run_result
one_item_ran = refl

run-drained_example :
    (length over.busy ≤ 2)
    × ((has_returned over.phase ≡ false)
        ⊎ ((has_failed over.phase ≡ true)
            × (over.wg ≡ 0)
            × (length over.busy ≡ 0)
            × ((over.entered ≡ false) ⊎ (is_empty over.queue ≡ true))))
run-drained_example = run-drained 2 one_item over one_item_ran

-- A context that ends before a worker begins leaves the queued item where it is.
item_left :
    run 1 start (
      sync_ends true
      ∷ queued (key "ns/web")
      ∷ cancel canceled
      ∷ sees_end
      ∷ quits
      ∷ drained
      ∷ group_ends
      ∷ [])
    ≡ some (record over { queue = key "ns/web" ∷ []; entered = false })
unfolding run start step start_workers take_first end_one remove_at step_sync step_end step_drained
    step_joined run_result
item_left = refl
