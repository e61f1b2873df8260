-- ===== src/Clientset/Requests.antt =====
-- The requests of the typed clients: validatingadmissionpolicy.go and
-- validatingadmissionpolicybinding.go in the folder typed/admissionregistration.x-k8s.io/v1alpha1.
pub mod Laws
use cel_admission_webhook.Common.{
  ℕ, ◌*◌, ◌%◌, ◌^◌, String, Bool, true, Option, some, none, List, [], ◌∷◌,
}
use cel_admission_webhook.Common.Errors.{Error, Result}
use cel_admission_webhook.Client.{ListObject, WatchEvent}
use cel_admission_webhook.Clientset.{
  ListOptions, Call, get, list, watch, create, update, delete, delete_collection, patch, PolicyCall,
  plain, update_status,
}

-- `client.Get()`, `Post()`, `Put()`, `Delete()` and `Patch(pt)`.
pub data Verb : Type 0 where
  get_verb : Verb
  post_verb : Verb
  put_verb : Verb
  delete_verb : Verb
  patch_verb : String → Verb

pub data Params (O : Type 0) : Type 0 where
  plain_params : O → Params O
  list_params : ListOptions O → Params O

pub data Body (O A : Type 0) : Type 0 where
  object : A → Body O A
  delete_options : O → Body O A
  bytes : List ℕ → Body O A

-- A `rest.Request` as the calls of its methods leave it.
pub record RestRequest (O A : Type 0) : Type 0 where
  pub verb : Verb
  pub resource : String
  pub name : Option String
  pub subresources : List String
  pub params : Option (Params O)
  pub timeout : ℕ
  pub body : Option (Body O A)

-- `time.Second` in nanoseconds
abbrev pub second : ℕ
second = 1000000000

-- `time.Duration(*opts.TimeoutSeconds) * time.Second`
unfoldable pub timeout_of : {O : Type 0} → ListOptions O → ℕ
timeout_of opts = elim opts.timeout_seconds [
  | none ↦ 0
  | some seconds ↦ (seconds * second) % 2 ^ 64
]

-- `opts.Watch = true`
abbrev pub with_watch : {O : Type 0} → ListOptions O → ListOptions O
with_watch opts = record opts { watch = true }

module _ {O A : Type 0} where
  -- A request of a verb, before its further methods are called.
  abbrev pub of_verb : Verb → RestRequest O A
  of_verb verb = record {
    verb = verb;
    resource = "";
    name = none;
    subresources = [];
    params = none;
    timeout = 0;
    body = none;
  }

module _ {O A : Type 0} (name_of : A → String) where
  -- The client of the policies.
  unfoldable pub policy_request : PolicyCall O A → RestRequest O A
  policy_request (plain (get name options)) = record (of_verb get_verb) {
    resource = "validatingadmissionpolicies";
    name = some name;
    params = some (plain_params options);
  }
  policy_request (plain (list opts)) = record (of_verb get_verb) {
    resource = "validatingadmissionpolicies";
    params = some (list_params opts);
    timeout = timeout_of opts;
  }
  policy_request (plain (watch opts)) = record (of_verb get_verb) {
    resource = "validatingadmissionpolicies";
    params = some (list_params (with_watch opts));
    timeout = timeout_of opts;
  }
  policy_request (plain (create policy opts)) = record (of_verb post_verb) {
    resource = "validatingadmissionpolicies";
    params = some (plain_params opts);
    body = some (object policy);
  }
  policy_request (plain (update policy opts)) = record (of_verb put_verb) {
    resource = "validatingadmissionpolicies";
    name = some (name_of policy);
    params = some (plain_params opts);
    body = some (object policy);
  }
  policy_request (update_status policy opts) = record (of_verb put_verb) {
    resource = "validatingadmissionpolicies";
    name = some (name_of policy);
    subresources = "status" ∷ [];
    params = some (plain_params opts);
    body = some (object policy);
  }
  policy_request (plain (delete name opts)) = record (of_verb delete_verb) {
    resource = "validatingadmissionpolicies";
    name = some name;
    body = some (delete_options opts);
  }
  policy_request (plain (delete_collection opts list_opts)) = record (of_verb delete_verb) {
    resource = "validatingadmissionpolicies";
    params = some (list_params list_opts);
    timeout = timeout_of list_opts;
    body = some (delete_options opts);
  }
  policy_request (plain (patch name pt data' opts subresources)) =
      record (of_verb (patch_verb pt)) {
        resource = "validatingadmissionpolicies";
        name = some name;
        subresources = subresources;
        params = some (plain_params opts);
        body = some (bytes data');
      }

  -- The client of the bindings.
  unfoldable pub binding_request : Call O A → RestRequest O A
  binding_request (get name options) = record (of_verb get_verb) {
    resource = "validatingadmissionpolicybindings";
    name = some name;
    params = some (plain_params options);
  }
  binding_request (list opts) = record (of_verb get_verb) {
    resource = "validatingadmissionpolicybindings";
    params = some (list_params opts);
    timeout = timeout_of opts;
  }
  binding_request (watch opts) = record (of_verb get_verb) {
    resource = "validatingadmissionpolicybindings";
    params = some (list_params (with_watch opts));
    timeout = timeout_of opts;
  }
  binding_request (create binding opts) = record (of_verb post_verb) {
    resource = "validatingadmissionpolicybindings";
    params = some (plain_params opts);
    body = some (object binding);
  }
  binding_request (update binding opts) = record (of_verb put_verb) {
    resource = "validatingadmissionpolicybindings";
    name = some (name_of binding);
    params = some (plain_params opts);
    body = some (object binding);
  }
  binding_request (delete name opts) = record (of_verb delete_verb) {
    resource = "validatingadmissionpolicybindings";
    name = some name;
    body = some (delete_options opts);
  }
  binding_request (delete_collection opts list_opts) = record (of_verb delete_verb) {
    resource = "validatingadmissionpolicybindings";
    params = some (list_params list_opts);
    timeout = timeout_of list_opts;
    body = some (delete_options opts);
  }
  binding_request (patch name pt data' opts subresources) = record (of_verb (patch_verb pt)) {
    resource = "validatingadmissionpolicybindings";
    name = some name;
    subresources = subresources;
    params = some (plain_params opts);
    body = some (bytes data');
  }

-- The end of the calls: `Do(ctx).Into(result)` for an object or a list, `Do(ctx).Error()` and
-- `Watch(ctx)`. `S` is the state of the API server.
pub record RestClient (O S A : Type 0) : Type 0 where
  pub into : RestRequest O A → S → Result A × S
  pub into_list : RestRequest O A → S → Result (ListObject A) × S
  pub error : RestRequest O A → S → Option Error × S
  pub watch_events : RestRequest O A → S → Result (List (WatchEvent A)) × S

module _ {O A : Type 0} where
  -- What a call answers.
  abbrev pub Answer : Call O A → Type 0
  Answer (list opts) = Result (ListObject A)
  Answer (watch opts) = Result (List (WatchEvent A))
  Answer (delete name opts) = Option Error
  Answer (delete_collection opts list_opts) = Option Error
  Answer c = Result A

  abbrev pub PolicyAnswer : PolicyCall O A → Type 0
  PolicyAnswer (plain c) = Answer c
  PolicyAnswer (update_status policy opts) = Result A

module _ {O S A : Type 0} (client : RestClient O S A) (name_of : A → String) where
  -- `validatingAdmissionPolicies`
  unfoldable pub do_policy : (c : PolicyCall O A) → S → PolicyAnswer c × S
  do_policy (plain (get name options)) s =
      client.into (policy_request name_of (plain (get name options))) s
  do_policy (plain (list opts)) s = client.into_list (policy_request name_of (plain (list opts))) s
  do_policy (plain (watch opts)) s =
      client.watch_events (policy_request name_of (plain (watch opts))) s
  do_policy (plain (create policy opts)) s =
      client.into (policy_request name_of (plain (create policy opts))) s
  do_policy (plain (update policy opts)) s =
      client.into (policy_request name_of (plain (update policy opts))) s
  do_policy (update_status policy opts) s =
      client.into (policy_request name_of (update_status policy opts)) s
  do_policy (plain (delete name opts)) s =
      client.error (policy_request name_of (plain (delete name opts))) s
  do_policy (plain (delete_collection opts list_opts)) s =
      client.error (policy_request name_of (plain (delete_collection opts list_opts))) s
  do_policy (plain (patch name pt data' opts subresources)) s =
      client.into (policy_request name_of (plain (patch name pt data' opts subresources))) s

  -- `validatingAdmissionPolicyBindings`
  unfoldable pub do_binding : (c : Call O A) → S → Answer c × S
  do_binding (get name options) s = client.into (binding_request name_of (get name options)) s
  do_binding (list opts) s = client.into_list (binding_request name_of (list opts)) s
  do_binding (watch opts) s = client.watch_events (binding_request name_of (watch opts)) s
  do_binding (create binding opts) s = client.into (binding_request name_of (create binding opts)) s
  do_binding (update binding opts) s = client.into (binding_request name_of (update binding opts)) s
  do_binding (delete name opts) s = client.error (binding_request name_of (delete name opts)) s
  do_binding (delete_collection opts list_opts) s =
      client.error (binding_request name_of (delete_collection opts list_opts)) s
  do_binding (patch name pt data' opts subresources) s =
      client.into (binding_request name_of (patch name pt data' opts subresources)) s
