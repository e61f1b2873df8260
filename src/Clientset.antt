-- ===== src/Clientset.antt =====
-- The generated clients of the custom API, pkg/generated/clientset/versioned. Requests is what the
-- typed clients send, typed/admissionregistration.x-k8s.io/v1alpha1/validatingadmissionpolicy.go and
-- validatingadmissionpolicybinding.go; Fake is what the clients of the folder fake record; Config makes
-- the clients from a rest.Config. `rest`, `testing` and `discovery` are parameters; the names of the
-- group are pkg/apis/admissionregistration.x-k8s.io/v1alpha1/zz_generated.register.go.
pub mod Requests
pub mod Fake
pub mod Config
pub mod Wrapped
pub mod Made
mod Tests
use cel_admission_webhook.Common.{ℕ, String, Bool, Option, some, none, List, [], ◌∷◌}
use cel_admission_webhook.Kinds.{GroupResource, GroupVersionKind, GroupVersionResource}

pub record GroupVersion : Type 0 where
  pub group : String
  pub version : String

abbrev pub group_name : String
group_name = "admissionregistration.x-k8s.io"

-- `SchemeGroupVersion`
abbrev pub scheme_group_version : GroupVersion
scheme_group_version = record { group = group_name; version = "v1alpha1" }

-- `GroupVersion.WithResource` and `WithKind`
abbrev pub with_resource : GroupVersion → String → GroupVersionResource
with_resource gv resource = record { group = gv.group; version = gv.version; resource = resource }

abbrev pub with_kind : GroupVersion → String → GroupVersionKind
with_kind gv kind = record { group = gv.group; version = gv.version; kind = kind }

-- `Resource` of zz_generated.register.go
abbrev pub resource_of : String → GroupResource
resource_of resource = record { group = scheme_group_version.group; resource = resource }

-- What is called of a `runtime.Scheme`; a type is its kind.
pub record SchemeCalls (Scheme : Type 0) : Type 0 where
  pub add_known_types : GroupVersion → List String → Scheme → Scheme
  pub add_to_group_version : GroupVersion → Scheme → Scheme

abbrev pub known_types : List String
known_types =
    "ValidatingAdmissionPolicy" ∷ "ValidatingAdmissionPolicyBinding"
    ∷ "ValidatingAdmissionPolicyBindingList" ∷ "ValidatingAdmissionPolicyList" ∷ []

-- `AddToScheme`: `addKnownTypes`, which is all that is registered.
unfoldable pub add_to_scheme : {Scheme : Type 0} → SchemeCalls Scheme → Scheme → Scheme
add_to_scheme calls scheme =
    calls.add_to_group_version scheme_group_version
      (calls.add_known_types scheme_group_version known_types scheme)

-- `Scheme` of the folder scheme, from an empty one, as its `init` leaves it.
unfoldable pub client_scheme : {Scheme : Type 0} → SchemeCalls Scheme → Scheme → Scheme
unfolding add_to_scheme
client_scheme calls scheme =
    add_to_scheme calls (calls.add_to_group_version (record { group = ""; version = "v1" }) scheme)

-- `metav1.ListOptions`; `rest` is what no client reads. An int64 is its 64 bits.
pub record ListOptions (O : Type 0) : Type 0 where
  pub label_selector : String
  pub field_selector : String
  pub resource_version : String
  pub timeout_seconds : Option ℕ
  pub watch : Bool
  pub rest : O

-- A call of a typed client on objects `A`; `O` are the options that it only passes on.
pub data Call (O A : Type 0) : Type 0 where
  get : String → O → Call O A
  list : ListOptions O → Call O A
  watch : ListOptions O → Call O A
  create : A → O → Call O A
  update : A → O → Call O A
  delete : String → O → Call O A
  delete_collection : O → ListOptions O → Call O A
  patch : String → String → List ℕ → O → List String → Call O A

-- The policies have a status.
pub data PolicyCall (O A : Type 0) : Type 0 where
  plain : Call O A → PolicyCall O A
  update_status : A → O → PolicyCall O A
