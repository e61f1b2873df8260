-- ===== src/Factory/Order/Tests.antt =====
-- Two informers in both orders.
use cel_admission_webhook.Common.{ℕ, ◌≡◌, refl, String, false, none, List, [], ◌∷◌, arith, eq_iff}
use cel_admission_webhook.Common.Dict.{Dict, lookup}
use cel_admission_webhook.Factory.{Factory}
use cel_admission_webhook.Factory.History.{Event, started, ended, shut_down, run}
use cel_admission_webhook.Factory.Order.{Same, unordered, run-unordered}

abbrev with_informers : Dict ℕ → Factory String ℕ String
with_informers informers = record {
  client = "client";
  namespace = "";
  tweak_list_options = none;
  default_resync = 600;
  custom_resync = [];
  informers = informers;
  started = [];
  wg = 0;
  shutting_down = false;
  launched = [];
}

abbrev forwards : Factory String ℕ String
forwards = with_informers (("Policy", 1) ∷ ("Binding", 2) ∷ [])

abbrev backwards : Factory String ℕ String
backwards = with_informers (("Binding", 2) ∷ ("Policy", 1) ∷ [])

both_orders : Same forwards backwards
unfolding lookup
both_orders = record {
  client = refl;
  namespace = refl;
  tweak_list_options = refl;
  default_resync = refl;
  custom_resync = λ name. refl;
  informers = λ name.
      ground (arith, eq_iff "Policy" name, eq_iff "Binding" name, eq_iff "Policy" "Binding");
  started = λ name. refl;
  wg = refl;
  shutting_down = refl;
  launched = λ name. refl;
}

abbrev events : List (Event String ℕ)
events = started ∷ ended ∷ shut_down ∷ []

run-unordered_example : unordered (run forwards events) ≡ unordered (run backwards events)
run-unordered_example = run-unordered forwards backwards events both_orders
