-- ===== src/Factory/Tests.antt =====
-- Runs of the informer factory.
use cel_admission_webhook.Common.{ℕ, String, true, false, some, none, List, [], ◌∷◌, ◌≡◌, refl, ◌≤◌}
use cel_admission_webhook.Common.Dict.{lookup, insert}
use cel_admission_webhook.Factory.{
  Factory, new_shared_informer_factory, with_custom_resync_config, new_with_options, new_filtered,
  start, informer_for, wait_for_cache_sync, begin_shutdown, may_return, apply_all, launch_each,
  insert_all, with_namespace, with_tweak_list_options, informer_ends,
}
use cel_admission_webhook.Factory.Laws.{launches, start-launches, wait_for_cache_sync-lookup}
use cel_admission_webhook.Factory.History.{
  Event, asked, started, shut_down, ended, run, step, Inv, history-Inv, informer_for-shared,
  run-closed, shutdown-drains,
}

-- An informer is the client's name and its resync period.
abbrev Informer : Type 0
Informer = String × ℕ

abbrev make_informer : String → ℕ → Informer
make_informer client resync = (client, resync)

abbrev fresh : Factory String Informer String
fresh = new_shared_informer_factory "client" 600

-- A factory with an informer for policies.
abbrev policies : Factory String Informer String
policies = record {
  client = "client";
  namespace = "";
  tweak_list_options = none;
  default_resync = 600;
  custom_resync = [];
  informers = ("ValidatingAdmissionPolicy", ("client", 600)) ∷ [];
  started = [];
  wg = 0;
  shutting_down = false;
  launched = [];
}

asked_once :
    (informer_for "ValidatingAdmissionPolicy" make_informer fresh) ≡ (("client", 600), policies)
unfolding new_shared_informer_factory new_with_options apply_all informer_for lookup insert
asked_once = refl

tuned :
    (informer_for "ConfigMap" make_informer (
      new_with_options "client" 600 (
        with_custom_resync_config {I = Informer} {Tweak = String} (("ConfigMap", 30) ∷ []) ∷ []))).0
    ≡ ("client", 30)
unfolding informer_for new_with_options apply_all with_custom_resync_config insert_all insert lookup
tuned = refl

filtered :
    (new_filtered {Clients = String} {I = Informer} {Tweak = String} "client" 600 "kube-system"
      "labels").namespace
    ≡ "kube-system"
unfolding new_filtered new_with_options apply_all with_namespace with_tweak_list_options
filtered = refl

once : (start (start policies)).launched ≡ "ValidatingAdmissionPolicy" ∷ []
unfolding start launch_each lookup insert
once = refl

policies_launched : launches "ValidatingAdmissionPolicy" (start policies).launched ≡ 1
unfolding lookup
policies_launched = start-launches policies (λ name. refl) "ValidatingAdmissionPolicy"

abbrev history : List (Event String Informer)
history = asked "ConfigMap" make_informer ∷ started ∷ ended ∷ shut_down ∷ started ∷ []

abbrev after : Factory String Informer String
after = record {
  client = "client";
  namespace = "";
  tweak_list_options = none;
  default_resync = 600;
  custom_resync = [];
  informers = ("ConfigMap", ("client", 600)) ∷ [];
  started = ("ConfigMap", true) ∷ [];
  wg = 0;
  shutting_down = true;
  launched = "ConfigMap" ∷ [];
}

ran : run fresh history ≡ some after
unfolding new_shared_informer_factory new_with_options apply_all run step informer_for start
    launch_each insert lookup begin_shutdown informer_ends
ran = refl

ran_on :
    run
      (informer_for "ConfigMap" make_informer fresh).1
      (started ∷ ended ∷ shut_down ∷ started ∷ [])
    ≡ some after
unfolding new_shared_informer_factory new_with_options apply_all run step informer_for start
    launch_each insert lookup begin_shutdown informer_ends
ran_on = refl

closed_on : run after (started ∷ shut_down ∷ []) ≡ some after
unfolding run step start begin_shutdown
closed_on = refl

history-Inv_example : Inv after
history-Inv_example = history-Inv "client" 600 history after ran

config_map_shared :
    informer_for "ConfigMap" make_informer after
    ≡ ((informer_for "ConfigMap" make_informer fresh).0, after)
config_map_shared =
    informer_for-shared fresh after "ConfigMap" make_informer make_informer
      (started ∷ ended ∷ shut_down ∷ started ∷ []) ran_on

run-closed_example : (after.launched ≡ after.launched) × (after.wg ≤ after.wg)
run-closed_example = run-closed after after (started ∷ shut_down ∷ []) closed_on refl

policies_drained :
    (g : Factory String Informer String) × (run policies (shut_down ∷ []) ≡ some g)
    × (may_return g ≡ true)
policies_drained = shutdown-drains policies

after_synced : lookup "ConfigMap" (wait_for_cache_sync (λ informer. true) after) ≡ some true
unfolding lookup
after_synced = wait_for_cache_sync-lookup (λ informer. true) after "ConfigMap"
