-- ===== src/Clientset/Requests/Laws.antt =====
-- The requests of the two typed clients against each other, and the timeout of a request.
use cel_admission_webhook.Common.{ℕ, ◌≡◌, refl, ◌*◌, ◌%◌, ◌^◌, ◌≤◌, ◌<◌, String, some, arith, ◌↔◌}
use cel_admission_webhook.Clientset.{
  ListOptions, Call, get, list, watch, create, update, delete, delete_collection, patch, plain,
}
use cel_admission_webhook.Clientset.Requests.{
  second, RestRequest, timeout_of, policy_request, binding_request,
}
use cel_admission_webhook.Clientset.Fake.{
  Action, root_get, root_list, root_watch, root_create, root_update, root_update_subresource,
  root_delete, root_delete_collection, root_patch_subresource, policy_action, binding_action,
  bindings_resource, bindings_kind,
}

-- A request of the same shape for the bindings.
abbrev pub for_bindings : {O A : Type 0} → RestRequest O A → RestRequest O A
for_bindings request = record request { resource = "validatingadmissionpolicybindings" }

-- An action of the same shape on the bindings.
abbrev pub on_bindings : {O A : Type 0} → Action O A → Action O A
on_bindings (root_get r name) = root_get bindings_resource name
on_bindings (root_list r k l f) = root_list bindings_resource bindings_kind l f
on_bindings (root_watch r l f v) = root_watch bindings_resource l f v
on_bindings (root_create r a) = root_create bindings_resource a
on_bindings (root_update r a) = root_update bindings_resource a
on_bindings (root_update_subresource r sub a) = root_update_subresource bindings_resource sub a
on_bindings (root_delete r name opts) = root_delete bindings_resource name opts
on_bindings (root_delete_collection r l f) = root_delete_collection bindings_resource l f
on_bindings (root_patch_subresource r name pt data' subs) =
    root_patch_subresource bindings_resource name pt data' subs

-- The client of the bindings sends for each call what the client of the policies sends for it, to the
-- other resource; and the fake client of the bindings hands `testing` the same action as that of the
-- policies, on the other resource and kind.
pub bindings-alike :
    {O A : Type 0} (name_of : A → String) (c : Call O A)
    → (binding_request name_of c ≡ for_bindings (policy_request name_of (plain c)))
      × (binding_action c ≡ on_bindings (policy_action (plain c)))
unfolding binding_request policy_request binding_action policy_action
bindings-alike name_of (get name options) = (refl, refl)
bindings-alike name_of (list opts) = (refl, refl)
bindings-alike name_of (watch opts) = (refl, refl)
bindings-alike name_of (create binding opts) = (refl, refl)
bindings-alike name_of (update binding opts) = (refl, refl)
bindings-alike name_of (delete name opts) = (refl, refl)
bindings-alike name_of (delete_collection opts list_opts) = (refl, refl)
bindings-alike name_of (patch name pt data' opts subresources) = (refl, refl)

product-fits_iff :
    (seconds : ℕ)
    → (((seconds * second) % 2 ^ 64 ≡ seconds * second) × ((seconds * second) % 2 ^ 64 < 2 ^ 63))
      ↔ (seconds ≤ 9223372036)
product-fits_iff seconds = omega arith

-- The timeout of a request is the one that was asked for, in nanoseconds, and is not negative as an int64,
-- exactly up to 9223372036 seconds.
pub timeout_of-exact_iff :
    {O : Type 0} (opts : ListOptions O) (seconds : ℕ)
    → opts.timeout_seconds ≡ some seconds
    → ((timeout_of opts ≡ seconds * second) × (timeout_of opts < 2 ^ 63)) ↔ (seconds ≤ 9223372036)
unfolding timeout_of
timeout_of-exact_iff opts seconds given = rw given (product-fits_iff seconds)
