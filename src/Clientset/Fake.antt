-- ===== src/Clientset/Fake.antt =====
-- The fake clients: fake/fake_validatingadmissionpolicy.go and
-- fake/fake_validatingadmissionpolicybinding.go. `testing.Fake` is the record FakeHost; an action has
-- the arguments of the function of `testing` that makes it.
pub mod Laws
use cel_admission_webhook.Common.{
  ℕ, String, Bool, true, Option, some, none, List, [], ◌∷◌, if◌then◌else◌,
}
use cel_admission_webhook.Common.Errors.{Error}
use cel_admission_webhook.Client.{ListMeta, WatchEvent}
use cel_admission_webhook.Kinds.{GroupVersionKind, GroupVersionResource}
use cel_admission_webhook.Clientset.{
  ListOptions, Call, get, list, watch, create, update, delete, delete_collection, patch, PolicyCall,
  plain, update_status, scheme_group_version, with_resource, with_kind,
}

-- The restrictions of `ExtractFromListOptions`: the selectors as text, and the resource version.
pub data Action (O A : Type 0) : Type 0 where
  root_get : GroupVersionResource → String → Action O A
  root_list : GroupVersionResource → GroupVersionKind → String → String → Action O A
  root_watch : GroupVersionResource → String → String → String → Action O A
  root_create : GroupVersionResource → A → Action O A
  root_update : GroupVersionResource → A → Action O A
  root_update_subresource : GroupVersionResource → String → A → Action O A
  root_delete : GroupVersionResource → String → O → Action O A
  root_delete_collection : GroupVersionResource → String → String → Action O A
  root_patch_subresource :
      GroupVersionResource → String → String → List ℕ → List String → Action O A

abbrev pub policies_resource : GroupVersionResource
policies_resource = with_resource scheme_group_version "validatingadmissionpolicies"

abbrev pub policies_kind : GroupVersionKind
policies_kind = with_kind scheme_group_version "ValidatingAdmissionPolicy"

abbrev pub bindings_resource : GroupVersionResource
bindings_resource = with_resource scheme_group_version "validatingadmissionpolicybindings"

abbrev pub bindings_kind : GroupVersionKind
bindings_kind = with_kind scheme_group_version "ValidatingAdmissionPolicyBinding"

module _ {O A : Type 0} where
  -- The action that a call of FakeValidatingAdmissionPolicies hands to `Invokes` or `InvokesWatch`.
  unfoldable pub policy_action : PolicyCall O A → Action O A
  policy_action (plain (get name options)) = root_get policies_resource name
  policy_action (plain (list opts)) =
      root_list policies_resource policies_kind opts.label_selector opts.field_selector
  policy_action (plain (watch opts)) =
      root_watch policies_resource opts.label_selector opts.field_selector opts.resource_version
  policy_action (plain (create policy opts)) = root_create policies_resource policy
  policy_action (plain (update policy opts)) = root_update policies_resource policy
  policy_action (update_status policy opts) =
      root_update_subresource policies_resource "status" policy
  policy_action (plain (delete name opts)) = root_delete policies_resource name opts
  policy_action (plain (delete_collection opts list_opts)) =
      root_delete_collection policies_resource list_opts.label_selector list_opts.field_selector
  policy_action (plain (patch name pt data' opts subresources)) =
      root_patch_subresource policies_resource name pt data' subresources

  -- FakeValidatingAdmissionPolicyBindings
  unfoldable pub binding_action : Call O A → Action O A
  binding_action (get name options) = root_get bindings_resource name
  binding_action (list opts) =
      root_list bindings_resource bindings_kind opts.label_selector opts.field_selector
  binding_action (watch opts) =
      root_watch bindings_resource opts.label_selector opts.field_selector opts.resource_version
  binding_action (create binding opts) = root_create bindings_resource binding
  binding_action (update binding opts) = root_update bindings_resource binding
  binding_action (delete name opts) = root_delete bindings_resource name opts
  binding_action (delete_collection opts list_opts) =
      root_delete_collection bindings_resource list_opts.label_selector list_opts.field_selector
  binding_action (patch name pt data' opts subresources) =
      root_patch_subresource bindings_resource name pt data' subresources

-- A list of the custom API.
pub record FakeList (A : Type 0) : Type 0 where
  pub list_meta : ListMeta
  pub items : List A

-- `Invokes` answers an object or nil, and an error or nil; `S` is the state of the tracker. `selector` is
-- the label selector of `ExtractFromListOptions`, nil or its `Matches` on the labels of an object.
pub record FakeHost (O S A : Type 0) : Type 0 where
  pub invokes : Action O A → S → (Option A × Option Error) × S
  pub invokes_list : Action O A → S → (Option (FakeList A) × Option Error) × S
  pub invokes_watch : Action O A → S → (Option (List (WatchEvent A)) × Option Error) × S
  pub selector : ListOptions O → Option (A → Bool)

module _ {O A : Type 0} where
  -- What a call answers: for an object both it, or nil, and the error, or nil.
  abbrev pub FakeAnswer : Call O A → Type 0
  FakeAnswer (list opts) = Option (FakeList A) × Option Error
  FakeAnswer (watch opts) = Option (List (WatchEvent A)) × Option Error
  FakeAnswer (delete name opts) = Option Error
  FakeAnswer (delete_collection opts list_opts) = Option Error
  FakeAnswer c = Option A × Option Error

  abbrev pub FakePolicyAnswer : PolicyCall O A → Type 0
  FakePolicyAnswer (plain c) = FakeAnswer c
  FakePolicyAnswer (update_status policy opts) = Option A × Option Error

-- The end of `Delete` and `DeleteCollection`: `_, err :=`
unfoldable pub drop_object : {S B : Type 0} → (Option B × Option Error) × S → Option Error × S
drop_object ((obj, e), s) = (e, s)

-- `labels.Everything()` for nil
abbrev pub or_everything : {A : Type 0} → Option (A → Bool) → A → Bool
or_everything none = λ item. true
or_everything (some matches) = matches

-- The loop of `List`.
unfoldable pub matching : {A : Type 0} → (A → Bool) → List A → List A
matching matches [] = []
matching matches (item ∷ items) =
    let rest = matching matches items in if matches item then item ∷ rest else rest

module _ {O S A : Type 0} (host : FakeHost O S A) where
  -- `List` of the policies, after its action.
  unfoldable pub select_items :
      ListOptions O
      → (Option (FakeList A) × Option Error) × S
      → (Option (FakeList A) × Option Error) × S
  unfolding matching
  select_items opts ((none, e), s) = ((none, e), s)
  select_items opts ((some l, e), s) = (
    (
      some (record {
        list_meta = l.list_meta;
        items = matching (or_everything (host.selector opts)) l.items;
      }),
      e,
    ),
    s,
  )

  -- FakeValidatingAdmissionPolicies
  unfoldable pub fake_policy : (c : PolicyCall O A) → S → FakePolicyAnswer c × S
  unfolding select_items drop_object policy_action
  fake_policy (plain (get name options)) s =
      host.invokes (policy_action (plain (get name options))) s
  fake_policy (plain (list opts)) s =
      select_items opts (host.invokes_list (policy_action (plain (list opts))) s)
  fake_policy (plain (watch opts)) s = host.invokes_watch (policy_action (plain (watch opts))) s
  fake_policy (plain (create policy opts)) s =
      host.invokes (policy_action (plain (create policy opts))) s
  fake_policy (plain (update policy opts)) s =
      host.invokes (policy_action (plain (update policy opts))) s
  fake_policy (update_status policy opts) s =
      host.invokes (policy_action (update_status policy opts)) s
  fake_policy (plain (delete name opts)) s =
      drop_object (host.invokes (policy_action (plain (delete name opts))) s)
  fake_policy (plain (delete_collection opts list_opts)) s =
      drop_object (host.invokes_list (policy_action (plain (delete_collection opts list_opts))) s)
  fake_policy (plain (patch name pt data' opts subresources)) s =
      host.invokes (policy_action (plain (patch name pt data' opts subresources))) s

  -- FakeValidatingAdmissionPolicyBindings
  unfoldable pub fake_binding : (c : Call O A) → S → FakeAnswer c × S
  unfolding select_items drop_object binding_action
  fake_binding (get name options) s = host.invokes (binding_action (get name options)) s
  fake_binding (list opts) s = select_items opts (host.invokes_list (binding_action (list opts)) s)
  fake_binding (watch opts) s = host.invokes_watch (binding_action (watch opts)) s
  fake_binding (create binding opts) s = host.invokes (binding_action (create binding opts)) s
  fake_binding (update binding opts) s = host.invokes (binding_action (update binding opts)) s
  fake_binding (delete name opts) s =
      drop_object (host.invokes (binding_action (delete name opts)) s)
  fake_binding (delete_collection opts list_opts) s =
      drop_object (host.invokes_list (binding_action (delete_collection opts list_opts)) s)
  fake_binding (patch name pt data' opts subresources) s =
      host.invokes (binding_action (patch name pt data' opts subresources)) s
