-- ===== src/Controller/Lifecycle/Exit.antt =====
-- What holds when `Run` of the generic controller returns.
use cel_admission_webhook.Common.{
  ℕ, zero, suc, ◌+◌, ◌≡◌, ◌≤◌, refl, subst, Bool, true, false, Option, none, some, List, [], ◌∷◌,
  arith, Option-cases, inl, inr, ◌⊎◌, length,
}
use cel_admission_webhook.Common.Errors.{Error}
use cel_admission_webhook.Controller.{Item, run_result}
use cel_admission_webhook.Controller.Lifecycle.{
  Phase, syncing, running, draining, joining, returned, State, Event, sync_ends, cancel, enters,
  quits, takes, finishes, leaves, queued, sees_end, drained, group_ends, is_empty, is_some, start,
  start_workers, take_first, remove_at, end_one, step_sync, step_end, step_drained, step_joined,
  step, run,
}
use mathlib.Core.Option

abbrev pub has_returned : Phase → Bool
has_returned (returned e) = true
has_returned _ = false

-- `Run` has not returned without an error.
abbrev pub has_failed : Phase → Bool
has_failed (returned e) = is_some e
has_failed _ = true

-- `Run` has seen the end of the context.
abbrev pub is_closing : Phase → Bool
is_closing draining = true
is_closing joining = true
is_closing _ = false

-- The workers have not been started before the cache has synced.
abbrev pub is_syncing : Phase → Bool
is_syncing syncing = true
is_syncing _ = false

-- The WaitGroup counts the workers, whose number is at most the one of the options. A worker that has
-- called `runWorker` is in it until the queue has shut down and is empty, and `Run` has returned only
-- when there are none.
pub record Inv (workers : ℕ) (s : State) : Type 0 where
  pub counted : s.wg ≡ s.idle + s.inside + length s.busy
  pub bounded : (s.wg ≤ workers) × ((is_syncing s.phase ≡ false) ⊎ (s.wg ≡ 0))
  pub working :
      (s.entered ≡ false)
      ⊎ (1 ≤ s.inside + length s.busy)
      ⊎ ((s.shutting ≡ true) × (is_empty s.queue ≡ true))
  pub ended : (has_returned s.phase ≡ false) ⊎ (s.wg ≡ 0)
  pub closing : (is_closing s.phase ≡ false) ⊎ (is_some s.context_error ≡ true)
  pub failed : has_failed s.phase ≡ true

start_workers-state :
    (n : ℕ) (s : State) → start_workers n s ≡ record s { wg = s.wg + n; idle = s.idle + n }
unfolding start_workers
start_workers-state zero s = ground arith
start_workers-state (suc n) s =
    ground (arith, start_workers-state n (record s { wg = s.wg + 1; idle = s.idle + 1 }))

remove_at-length :
    (n : ℕ) (items : List Item)
    → (remove_at n items ≡ none)
      ⊎ ((rest : List Item) × (remove_at n items ≡ some rest) × (length items ≡ length rest + 1))
unfolding remove_at
remove_at-length n [] = inl refl
remove_at-length zero (item ∷ items) = inr (items, refl, omega arith)
remove_at-length (suc n) (item ∷ items) = elim (remove_at-length n items) [
  | inl missing ↦ inl (rw missing refl)
  | inr (rest, found, count) ↦ inr (item ∷ rest, rw found refl, ground (arith, count))
]

-- The result of `Run` when the cache did not sync, and after the shutdown.
run_result-failed :
    (e : Option Error) → (is_some (run_result false e e) ≡ true) × (run_result true e e ≡ e)
unfolding run_result
run_result-failed none = (refl, refl)
run_result-failed (some e) = (refl, refl)

step-Inv :
    (workers : ℕ) (s t : State) (e : Event)
    → step workers s e ≡ some t
    → Inv workers s
    → Inv workers t
unfolding step take_first end_one step_sync step_end step_drained step_joined
step-Inv workers s t (sync_ends synced) h v = ground (
  arith,
  h,
  v,
  run_result-failed s.context_error,
  start_workers-state workers (record s { phase = running }),
)
step-Inv workers s t (cancel e) h v = ground (arith, h, v)
step-Inv workers s t enters h v = ground (arith, h, v)
step-Inv workers s t quits h v = ground (arith, h, v)
step-Inv workers s t takes h v = ground (arith, h, v)
step-Inv workers s t (finishes n) h v = ground (arith, h, v, remove_at-length n s.busy)
step-Inv workers s t leaves h v = ground (arith, h, v)
step-Inv workers s t (queued item) h v = ground (arith, h, v)
step-Inv workers s t sees_end h v = ground (arith, h, v)
step-Inv workers s t drained h v = ground (arith, h, v)
step-Inv workers s t group_ends h v = ground (arith, h, v, run_result-failed s.context_error)

start-Inv : (workers : ℕ) → Inv workers start
unfolding start
start-Inv workers = record {
  counted = refl;
  bounded = (omega arith, inr refl);
  working = inl refl;
  ended = inl refl;
  closing = inl refl;
  failed = refl;
}

run-Inv :
    (workers : ℕ) (s t : State) (events : List Event)
    → run workers s events ≡ some t
    → Inv workers s
    → Inv workers t
unfolding run
run-Inv workers s t [] h v = subst (Inv workers) (Option.some-injective _ _ h) v
run-Inv workers s t (e ∷ events) h v = elim (Option-cases (step workers s e)) [
  | inl stuck ↦ ground (arith, h, stuck)
  | inr (mid, moved) ↦
      run-Inv workers mid t events (ground (arith, h, moved)) (step-Inv workers s mid e moved v)
]

-- When `Run` has returned, in whatever order the workers, the queue and the context moved, its result is
-- an error, no worker is left and no item is being processed; and if any worker has ever begun, the queue is empty. Before
-- that, no more items are processed at a time than the options have workers.
pub run-drained :
    (workers : ℕ) (events : List Event) (s : State)
    → run workers start events ≡ some s
    → (length s.busy ≤ workers)
      × ((has_returned s.phase ≡ false)
          ⊎ ((has_failed s.phase ≡ true)
              × (s.wg ≡ 0)
              × (length s.busy ≡ 0)
              × ((s.entered ≡ false) ⊎ (is_empty s.queue ≡ true))))
run-drained workers events s h =
    let v = run-Inv workers start s events h (start-Inv workers) in
    (
      ground (arith, v.counted, v.bounded),
      elim v.ended [
        | inl before ↦ inl before
        | inr none_left ↦ inr (
          v.failed,
          none_left,
          ground (arith, v.counted, none_left),
          ground (arith, v.counted, v.working, none_left),
        )
      ],
    )
