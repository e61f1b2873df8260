-- ===== src/Factory/Groups.antt =====
-- What the informers of the custom API are made of:
-- pkg/generated/informers/externalversions/admissionregistration.x-k8s.io/v1alpha1/validatingadmissionpolicy.go
-- and validatingadmissionpolicybinding.go, with ForResource of generic.go beside factory.go. An informer is what it is
-- constructed from, over clients of policies `P` and bindings `B` whose server has the state `S`.
pub mod Laws
pub mod Typing
mod Tests
use cel_admission_webhook.Common.{
  ℕ, String, Bool, true, false, ◌&&◌, ◌==◌, Option, some, none, List, [], ◌∷◌, ◌++◌, if◌then◌else◌,
}
use cel_admission_webhook.Common.Errors.{Error, Result, ok, err, errorf}
use Prim.Native.String.{◌++◌ as str_append}
use cel_admission_webhook.Kinds.{GroupVersionResource, GroupResource}
use cel_admission_webhook.Client.{ListObject, WatchEvent}
use cel_admission_webhook.Clientset.{
  ListOptions, Call, list, watch, PolicyCall, plain, scheme_group_version, with_resource,
}
use cel_admission_webhook.Clientset.Requests.{RestClient, do_policy, do_binding}
use cel_admission_webhook.Lister.{Indexer, NamespacedLister}
use cel_admission_webhook.Lister.Generated.{policy_lister, binding_lister}
use cel_admission_webhook.Factory.{Factory, informer_for}

-- `cache.ListWatch`
pub record ListWatch (O S A : Type 0) : Type 0 where
  pub list_func : ListOptions O → S → Result (ListObject A) × S
  pub watch_func : ListOptions O → S → Result (List (WatchEvent A)) × S

-- The arguments of `cache.NewSharedIndexInformer`; the indexers are always those by namespace.
pub data Informer (O S P B : Type 0) : Type 0 where
  of_policies : ListWatch O S P → ℕ → Informer O S P B
  of_bindings : ListWatch O S B → ℕ → Informer O S P B

-- The clientset: the typed clients of both resources.
pub record Typed (O S P B : Type 0) : Type 0 where
  pub policies : RestClient O S P
  pub bindings : RestClient O S B
  pub policy_name : P → String
  pub binding_name : B → String

-- `TweakListOptionsFunc`: the options as it leaves them.
abbrev pub Tweak : Type 0 → Type 0
Tweak O = ListOptions O → ListOptions O

-- What a `group` and a `version` keep of the factory, which is the state here.
pub record Group (O : Type 0) : Type 0 where
  pub namespace : String
  pub tweak_list_options : Option (Tweak O)

-- `V1alpha1()`
abbrev pub v1alpha1 : {O : Type 0} → Group O → Group O
v1alpha1 g = record { namespace = g.namespace; tweak_list_options = g.tweak_list_options }

abbrev pub tweaked : {O : Type 0} → Option (Tweak O) → ListOptions O → ListOptions O
tweaked none opts = opts
tweaked (some tweak) opts = tweak opts

-- Go's `==` on the structs.
abbrev pub gvr_eq : GroupVersionResource → GroupVersionResource → Bool
gvr_eq a b = a.group == b.group && (a.version == b.version && a.resource == b.resource)

-- The format `%v` of a GroupVersionResource, its method `String`.
abbrev pub gvr_text : GroupVersionResource → String
gvr_text r =
    str_append r.group (str_append "/" (str_append r.version (str_append ", Resource=" r.resource)))

abbrev pub as_ok : {A F : Type 0} → A × F → Result A × F
as_ok (a, f) = (ok a, f)

abbrev pub ApiFactory : Type 0 → Type 0 → Type 0 → Type 0 → Type 0
ApiFactory O S P B = Factory (Typed O S P B) (Informer O S P B) (Tweak O)

module _ {O S P B : Type 0} where
  -- `NewFilteredValidatingAdmissionPolicyInformer`
  unfoldable pub new_policy_informer : Option (Tweak O) → Typed O S P B → ℕ → Informer O S P B
  new_policy_informer tweak client resync =
      of_policies
        (record {
          list_func = λ opts s.
              do_policy client.policies client.policy_name (plain (list (tweaked tweak opts))) s;
          watch_func = λ opts s.
              do_policy client.policies client.policy_name (plain (watch (tweaked tweak opts))) s;
        })
        resync

  -- `NewFilteredValidatingAdmissionPolicyBindingInformer`
  unfoldable pub new_binding_informer : Option (Tweak O) → Typed O S P B → ℕ → Informer O S P B
  new_binding_informer tweak client resync =
      of_bindings
        (record {
          list_func = λ opts s.
              do_binding client.bindings client.binding_name (list (tweaked tweak opts)) s;
          watch_func = λ opts s.
              do_binding client.bindings client.binding_name (watch (tweaked tweak opts)) s;
        })
        resync

  -- `NewValidatingAdmissionPolicyInformer` and that of the bindings.
  abbrev pub new_plain_policy_informer : Typed O S P B → ℕ → Informer O S P B
  new_plain_policy_informer = new_policy_informer none

  abbrev pub new_plain_binding_informer : Typed O S P B → ℕ → Informer O S P B
  new_plain_binding_informer = new_binding_informer none

  -- `Admissionregistration()`
  abbrev pub admissionregistration : ApiFactory O S P B → Group O
  admissionregistration f = record {
    namespace = f.namespace;
    tweak_list_options = f.tweak_list_options;
  }

  -- `defaultInformer` of the policies and of the bindings.
  abbrev pub default_policy_informer : Group O → Typed O S P B → ℕ → Informer O S P B
  default_policy_informer v = new_policy_informer v.tweak_list_options

  abbrev pub default_binding_informer : Group O → Typed O S P B → ℕ → Informer O S P B
  default_binding_informer v = new_binding_informer v.tweak_list_options

  -- `Informer()` of the policies and of the bindings.
  unfoldable pub policy_informer : ApiFactory O S P B → Informer O S P B × ApiFactory O S P B
  policy_informer f =
      informer_for "ValidatingAdmissionPolicy"
        (default_policy_informer (v1alpha1 (admissionregistration f))) f

  unfoldable pub binding_informer : ApiFactory O S P B → Informer O S P B × ApiFactory O S P B
  binding_informer f =
      informer_for "ValidatingAdmissionPolicyBinding"
        (default_binding_informer (v1alpha1 (admissionregistration f))) f

  -- `Lister()` of the policies and of the bindings, on the indexer of the informer.
  unfoldable pub policy_informer_lister :
      {Selector : Type 0}
      → (GroupResource → String → Error)
      → (Informer O S P B → Indexer P Selector)
      → ApiFactory O S P B
      → NamespacedLister P Selector × ApiFactory O S P B
  unfolding policy_informer policy_lister
  policy_informer_lister new_not_found get_indexer f =
      let (informer, g) = policy_informer f in
      (policy_lister new_not_found (get_indexer informer), g)

  unfoldable pub binding_informer_lister :
      {Selector : Type 0}
      → (GroupResource → String → Error)
      → (Informer O S P B → Indexer B Selector)
      → ApiFactory O S P B
      → NamespacedLister B Selector × ApiFactory O S P B
  unfolding binding_informer binding_lister
  binding_informer_lister new_not_found get_indexer f =
      let (informer, g) = binding_informer f in
      (binding_lister new_not_found (get_indexer informer), g)

  -- `ForResource`, without the lister.
  unfoldable pub for_resource :
      GroupVersionResource → ApiFactory O S P B → Result (Informer O S P B) × ApiFactory O S P B
  for_resource resource f =
      if gvr_eq resource (with_resource scheme_group_version "validatingadmissionpolicies")
      then as_ok (policy_informer f)
      else if gvr_eq resource
          (with_resource scheme_group_version "validatingadmissionpolicybindings")
      then as_ok (binding_informer f)
      else (err (errorf (str_append "no informer found for " (gvr_text resource))), f)
