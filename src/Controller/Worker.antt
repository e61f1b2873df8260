-- ===== src/Controller/Worker.antt =====
-- The queue discipline of a worker.
use cel_admission_webhook.Common.{
  String, ◌≡◌, refl, ap, inl, inr, Option, none, some, List, [], ◌∷◌, ◌++◌,
}
use cel_admission_webhook.Common.Errors.{Error, outcome-cases}
use cel_admission_webhook.Controller.{
  Item, key, other, QueueCall, add_rate_limited, forget, done, Environment, reconcile, finish_item,
  process_item, run_worker,
}

-- The items that the queue handed out before it shut down.
abbrev pub taken : List (Option Item) → List Item
taken [] = []
taken (none ∷ gets) = []
taken (some item ∷ gets) = item ∷ taken gets

-- The items marked done.
abbrev pub dones : List QueueCall → List Item
dones [] = []
dones (done item ∷ calls) = item ∷ dones calls
dones (_ ∷ calls) = dones calls

-- The items that are forgotten or put back to be tried again.
abbrev pub settled : List QueueCall → List Item
settled [] = []
settled (forget item ∷ calls) = item ∷ settled calls
settled (add_rate_limited k ∷ calls) = key k ∷ settled calls
settled (_ ∷ calls) = settled calls

-- The keys put back.
abbrev pub retried : List QueueCall → List String
retried [] = []
retried (add_rate_limited k ∷ calls) = k ∷ retried calls
retried (_ ∷ calls) = retried calls

module _ (env : Environment) where
  open env use {W}

  -- The keys whose reconciliation fails, with the reconciler's state carried along.
  abbrev failed_key : String → Option Error → List String
  failed_key k none = []
  failed_key k (some e) = k ∷ []

  pub failures : List (Option Item) → W → List String
  failures [] w = []
  failures (none ∷ gets) w = []
  failures (some (other n) ∷ gets) w = failures gets w
  failures (some (key k) ∷ gets) w =
      failed_key k (reconcile env k w).0 ++ failures gets (reconcile env k w).1

  -- A worker marks each item that it takes done once, in the order in which it took them; it settles
  -- each one, by forgetting it or putting it back, and puts back exactly the keys whose
  -- reconciliation failed. After a shutdown it takes no more.
  pub run_worker-settled :
      (gets : List (Option Item)) (w : W)
      → (dones (run_worker env gets w).0 ≡ taken gets)
        × (settled (run_worker env gets w).0 ≡ taken gets)
        × (retried (run_worker env gets w).0 ≡ failures gets w)
  unfolding run_worker process_item failures
  run_worker-settled [] w = (refl, refl, refl)
  run_worker-settled (none ∷ gets) w = (refl, refl, refl)
  run_worker-settled (some (other n) ∷ gets) w =
      let (d, s, r) = run_worker-settled gets w in (ap (◌∷◌ (other n)) d, ap (◌∷◌ (other n)) s, r)
  run_worker-settled (some (key k) ∷ gets) w = elim (outcome-cases (reconcile env k w)) [
    | inl (t, clean) ↦
        let (d, s, r) = run_worker-settled gets t in
        rw (clean, finish_item) (ap (◌∷◌ (key k)) d, ap (◌∷◌ (key k)) s, r)
    | inr (e, t, failed) ↦
        let (d, s, r) = run_worker-settled gets t in
        rw (failed, finish_item) (ap (◌∷◌ (key k)) d, ap (◌∷◌ (key k)) s, ap (◌∷◌ k) r)
  ]
