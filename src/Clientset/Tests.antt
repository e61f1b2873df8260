-- ===== src/Clientset/Tests.antt =====
-- Calls of the generated clients.
use cel_admission_webhook.Common.{
  ℕ, ◌≡◌, refl, String, false, some, none, List, [], ◌∷◌, ◌==◌, if◌then◌else◌, ◌*◌, arith, ◌↔◌,
}
use cel_admission_webhook.Common.Errors.{Result, ok, err, errorf}
use cel_admission_webhook.Clientset.{
  ListOptions, get, list, create, delete, delete_collection, patch, PolicyCall, plain,
  update_status,
}
use cel_admission_webhook.Clientset.Requests.{second, timeout_of, policy_request, binding_request}
use cel_admission_webhook.Clientset.Requests.Laws.{
  for_bindings, bindings-alike, timeout_of-exact_iff,
}
use cel_admission_webhook.Clientset.Fake.Laws.{Lists, fake_list_iff}
use cel_admission_webhook.Clientset.Fake.{
  policy_action, binding_action, FakeHost, FakeList, fake_policy, fake_binding, select_items,
  matching, drop_object,
}
use cel_admission_webhook.Clientset.Wrapped.{Answers, after_calls}
use cel_admission_webhook.Clientset.Wrapped.Laws.{wrapped, after_calls-sent}
use cel_admission_webhook.Clientset.Config.{
  ℤ, pos, negsuc, RestConfig, RestHost, new_client_for_config, new_client, set_config_defaults,
  burst_required, new_for_config,
}
use cel_admission_webhook.Clientset.Config.Laws.{new_for_config-steps}

-- An object is its name.
abbrev own_name : String → String
own_name name = name

abbrev every : ListOptions ℕ
every = record {
  label_selector = "app=web";
  field_selector = "";
  resource_version = "7";
  timeout_seconds = some 30;
  watch = false;
  rest = 0;
}

thirty : timeout_of every ≡ 30000000000
unfolding timeout_of
thirty = refl

-- 2 ^ 55 seconds are a timeout of nothing.
past_int64 : timeout_of (record every { timeout_seconds = some 36028797018963968 }) ≡ 0
unfolding timeout_of
past_int64 = refl

two_seconds : timeout_of (record every { timeout_seconds = some 2 }) ≡ 2 * second
two_seconds =
    ((timeout_of-exact_iff (record every { timeout_seconds = some 2 }) 2 refl).1 (omega arith)).0

same_request :
    binding_request own_name (delete_collection 3 every)
    ≡ for_bindings (policy_request own_name (plain (delete_collection 3 every)))
same_request = (bindings-alike own_name (delete_collection 3 every)).0

abbrev page : List String → FakeList String
page items = record { list_meta = record { resource_version = "7"; continue = "" }; items = items }

-- A tracker that counts its actions; its selectors name one object.
abbrev tracker : FakeHost ℕ ℕ String
tracker = record {
  invokes = λ action s. ((none, none), 0);
  invokes_watch = λ action s. ((none, none), 0);
  invokes_list = λ action s. ((some (page ("a" ∷ "b" ∷ "a" ∷ [])), none), 0);
  selector = λ opts. some (λ name. name == "a");
}

listed : fake_policy tracker (plain (list every)) 0 ≡ ((some (page ("a" ∷ "a" ∷ [])), none), 0)
unfolding fake_policy select_items matching policy_action
listed = refl

fake_list_iff_example :
    ((fake_policy tracker (plain (list every)) 0 ≡ ((some (page ("a" ∷ "a" ∷ [])), none), 0))
      ↔ Lists {S = ℕ}
          (some (λ name. name == "a"))
          ((some (page ("a" ∷ "b" ∷ "a" ∷ [])), none), 0)
          ((some (page ("a" ∷ "a" ∷ [])), none), 0))
    × ((fake_binding tracker (list every) 0 ≡ ((some (page ("a" ∷ "a" ∷ [])), none), 0))
        ↔ Lists {S = ℕ}
            (some (λ name. name == "a"))
            ((some (page ("a" ∷ "b" ∷ "a" ∷ [])), none), 0)
            ((some (page ("a" ∷ "a" ∷ [])), none), 0))
fake_list_iff_example = fake_list_iff tracker every 0 ((some (page ("a" ∷ "a" ∷ [])), none), 0)

deleted : fake_binding tracker (delete "a" 3) 0 ≡ (none, 0)
unfolding fake_binding drop_object binding_action
deleted = refl

-- A host that makes clients of the addresses of their configurations.
abbrev rest_host : RestHost ℤ String String String String
rest_host = record {
  default_user_agent = "agent";
  http_client_for = λ config. ok config.user_agent;
  rest_client_for = λ config h. ok config.api_path;
  discovery_for = λ config h. ok config.rest;
  token_bucket = λ qps burst. burst;
}

abbrev plain_config : RestConfig ℤ String
plain_config = record {
  group_version = none;
  api_path = "";
  without_conversion = false;
  user_agent = "";
  rate_limiter = none;
  qps = pos 5;
  burst = pos 10;
  rest = "host";
}

configured :
    new_for_config rest_host plain_config ≡ ok (record { v1alpha1 = "/apis"; discovery = "host" })
configured = new_for_config-steps rest_host plain_config refl

unlimited : new_for_config rest_host (record plain_config { burst = negsuc 0 }) ≡ err burst_required
unlimited = new_for_config-steps rest_host (record plain_config { burst = negsuc 0 }) refl

alone : new_client_for_config rest_host plain_config ≡ ok "/apis"
unfolding new_client_for_config new_client set_config_defaults
alone = refl

-- A server that refuses everything.
abbrev refusals : Answers ℕ String
refusals = record {
  object_answer = λ r log. err (errorf "forbidden");
  list_answer = λ r log. err (errorf "forbidden");
  error_answer = λ r log. some (errorf "forbidden");
  watch_answer = λ r log. err (errorf "forbidden");
}

-- A conversion that fails for one name.
abbrev to_native : String → Result String
to_native name = if name == "bad" then err (errorf "bad name") else ok name

abbrev some_calls : List (PolicyCall ℕ String)
some_calls =
    plain (create "bad" 3)
    ∷ update_status "good" 3
    ∷ plain (get "good" 4)
    ∷ plain (patch "good" "json" [] 3 [])
    ∷ plain (get "late" 4)
    ∷ []

after_calls-sent_example :
    after_calls (wrapped to_native ok own_name refusals every 0) every 0 some_calls [] ≡ (
      some "transform patch unsupported",
      policy_request own_name (update_status "good" 3)
          ∷ policy_request own_name (plain (get "good" 4))
          ∷ [],
    )
after_calls-sent_example = after_calls-sent to_native ok own_name refusals every 0 some_calls []
