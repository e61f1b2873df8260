-- ===== src/Controller/Tests.antt =====
-- A concrete environment for Controller.antt and Lister.antt, tests and instances.
use cel_admission_webhook.Common.{
  ℕ, String, ◌≡◌, refl, ◌↔◌, Bool, true, false, Option, none, some, List, [], ◌∷◌, ◌==◌,
  if◌then◌else◌,
}
use cel_admission_webhook.Common.Errors.{Error, errorf, Result, ok, err}
use cel_admission_webhook.Lister.{Indexer, namespaced, cluster_wide}
use cel_admission_webhook.Controller.{
  Item, key, other, QueueCall, add, add_rate_limited, forget, done, ControllerOptions, Environment,
  Event, added, updated, deleted, on_event, reconcile, run_worker, with_defaults, run_result,
}
use cel_admission_webhook.Controller.Events.{IsNews, on_event_iff}
use cel_admission_webhook.Controller.Reconcile.{KeyLaws, reconcile-join_key}
use cel_admission_webhook.Controller.Worker.{dones, run_worker-settled}

pub record Widget : Type 0 where
  pub widget_key : String
  pub version : String

abbrev widget : String → Widget
widget version = record { widget_key = "ns/web"; version = version }

abbrev split : String → Result (String × String)
split k = if k == "ns/web" then ok ("ns", "web") else err (errorf "unexpected key format")

abbrev cache : Indexer Widget ℕ
cache = record {
  get_by_key = λ k. if k == "ns/web" then ok (some (widget "2")) else ok none;
  list_all = λ s. (widget "2" ∷ [], none);
  list_namespace = λ namespace s. (widget "2" ∷ [], none);
}

-- The reconciler records whether the object was there, and fails when it was not.
abbrev record_widget : String → String → Option Widget → List Bool → Option Error × List Bool
record_widget namespace name none seen = (some (errorf "gone"), false ∷ seen)
record_widget namespace name (some w) seen = (none, true ∷ seen)

abbrev widget_env : Environment
widget_env = record {
  Object = Widget;
  Selector = ℕ;
  W = List Bool;
  key_of = λ w. ok w.widget_key;
  version_of = λ w. ok w.version;
  split_key = split;
  indexer = cache;
  new_not_found = λ resource name. errorf "not found";
  is_not_found = λ e. e.message == "not found";
  reconciler = record_widget;
}

test_update :
    (on_event widget_env (updated (widget "1") (widget "2")) ≡ add "ns/web" ∷ [])
    × (on_event widget_env (updated (widget "2") (widget "2")) ≡ [])
unfolding on_event
test_update = (refl, refl)

test_worker :
    run_worker widget_env (some (key "ns/web") ∷ some (other 4) ∷ none ∷ some (key "x") ∷ []) [] ≡ (
      forget (key "ns/web") ∷ done (key "ns/web") ∷ forget (other 4) ∷ done (other 4) ∷ [],
      true ∷ [],
    )
unfolding run_worker cel_admission_webhook.Controller.process_item reconcile namespaced cluster_wide
test_worker = refl

on_event_iff_example :
    (on_event widget_env (updated (widget "1") (widget "2")) ≡ add "ns/web" ∷ []) ↔ (
      (o : Widget) × IsNews widget_env (updated (widget "1") (widget "2")) o
      × (◌≡◌ {A = Result String} (ok o.widget_key) (ok "ns/web")))
on_event_iff_example = (on_event_iff widget_env (updated (widget "1") (widget "2")) "ns/web").0

widget_laws : KeyLaws widget_env "ns" "web"
widget_laws = record { splits = refl; not_found = λ resource. refl }

reconcile-join_key_example : reconcile widget_env "ns/web" [] ≡ (none, true ∷ [])
reconcile-join_key_example = reconcile-join_key widget_env "ns" "web" [] widget_laws

run_worker-settled_example :
    dones (run_worker widget_env (some (key "ns/web") ∷ none ∷ []) []).0 ≡ key "ns/web" ∷ []
run_worker-settled_example = (run_worker-settled widget_env (some (key "ns/web") ∷ none ∷ []) []).0
