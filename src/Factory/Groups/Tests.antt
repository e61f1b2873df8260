-- ===== src/Factory/Groups/Tests.antt =====
-- The informers of a factory over a server that knows nothing.
use cel_admission_webhook.Common.{
  ℕ, ◌≡◌, refl, String, Bool, true, false, if◌then◌else◌, some, none, [], ◌∷◌,
}
use cel_admission_webhook.Common.Errors.{ok, err, errorf}
use cel_admission_webhook.Common.Dict.{lookup, insert}
use cel_admission_webhook.Kinds.{GroupVersionResource}
use cel_admission_webhook.Clientset.{scheme_group_version, with_resource}
use cel_admission_webhook.Clientset.Requests.{RestClient}
use cel_admission_webhook.Factory.{
  informer_for, new_shared_informer_factory, new_with_options, apply_all, start, launch_each,
}
use cel_admission_webhook.Factory.History.{Event, asked, started, run, step}
use cel_admission_webhook.Factory.Groups.{
  Informer, Typed, ApiFactory, new_policy_informer, policy_informer, binding_informer,
  new_binding_informer, for_resource,
}
use cel_admission_webhook.Factory.Groups.Typing.{type_of, for_resource-type}
use cel_admission_webhook.Factory.Groups.Laws.{for_resource-shared}

abbrev refusing : RestClient ℕ ℕ String
refusing = record {
  into = λ r s. (err (errorf "unauthorized"), s);
  into_list = λ r s. (err (errorf "unauthorized"), s);
  error = λ r s. (some (errorf "unauthorized"), s);
  watch_events = λ r s. (err (errorf "unauthorized"), s);
}

abbrev clients : Typed ℕ ℕ String String
clients = record {
  policies = refusing;
  bindings = refusing;
  policy_name = λ name. name;
  binding_name = λ name. name;
}

abbrev policies : GroupVersionResource
policies = with_resource scheme_group_version "validatingadmissionpolicies"

abbrev made : Informer ℕ ℕ String String
made = new_policy_informer none clients 600

abbrev fresh : ApiFactory ℕ ℕ String String
fresh = new_shared_informer_factory clients 600

abbrev with_policies : Bool → ApiFactory ℕ ℕ String String
with_policies running = record {
  client = clients;
  namespace = "";
  tweak_list_options = none;
  default_resync = 600;
  custom_resync = [];
  informers = ("ValidatingAdmissionPolicy", made) ∷ [];
  started = if running then ("ValidatingAdmissionPolicy", true) ∷ [] else [];
  wg = if running then 1 else 0;
  shutting_down = false;
  launched = if running then "ValidatingAdmissionPolicy" ∷ [] else [];
}

first_request : for_resource policies fresh ≡ (ok made, with_policies false)
unfolding for_resource policy_informer informer_for new_shared_informer_factory new_with_options
    apply_all lookup insert
first_request = refl

started_once : run (with_policies false) (started ∷ []) ≡ some (with_policies true)
unfolding run step start launch_each lookup insert
started_once = refl

for_resource-shared_example :
    for_resource policies (with_policies true) ≡ (ok made, with_policies true)
for_resource-shared_example =
    for_resource-shared policies fresh (with_policies false) (with_policies true) made
      (started ∷ []) first_request started_once

unknown : for_resource (with_resource scheme_group_version "pods") fresh ≡ (
  err (errorf "no informer found for admissionregistration.x-k8s.io/v1alpha1, Resource=pods"),
  fresh,
)
unfolding for_resource
unknown = refl

-- After the policies were asked for and the factory was started, the bindings are asked for.
abbrev asked_policies : Event (Typed ℕ ℕ String String) (Informer ℕ ℕ String String)
asked_policies = asked "ValidatingAdmissionPolicy" (new_policy_informer none)

abbrev bindings : GroupVersionResource
bindings = with_resource scheme_group_version "validatingadmissionpolicybindings"

abbrev made_bindings : Informer ℕ ℕ String String
made_bindings = new_binding_informer none clients 600

abbrev both : ApiFactory ℕ ℕ String String
both = record (with_policies true) {
  informers =
      ("ValidatingAdmissionPolicy", made)
      ∷ ("ValidatingAdmissionPolicyBinding", made_bindings)
      ∷ [];
}

asked_and_started : run fresh (asked_policies ∷ started ∷ []) ≡ some (with_policies true)
unfolding run step start launch_each lookup insert informer_for new_shared_informer_factory
    new_with_options apply_all
asked_and_started = refl

second_request : for_resource bindings (with_policies true) ≡ (ok made_bindings, both)
unfolding for_resource binding_informer informer_for lookup insert
second_request = refl

for_resource-type_example : type_of bindings ≡ some "ValidatingAdmissionPolicyBinding"
unfolding new_shared_informer_factory new_with_options apply_all new_policy_informer
    new_binding_informer
for_resource-type_example =
    for_resource-type bindings fresh (with_policies true) both made_bindings
      (asked_policies ∷ started ∷ []) refl asked_and_started (λ c n. refl, (tt, tt)) second_request
