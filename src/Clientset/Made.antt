-- ===== src/Clientset/Made.antt =====
-- The other constructors of the clients, and what is read of a client: clientset.go,
-- typed/admissionregistration.x-k8s.io/v1alpha1/admissionregistration.x-k8s.io_client.go, and the fake
-- clientset of fake/clientset_generated.go. A nil pointer is `none`.
pub mod Laws
mod Tests
use cel_admission_webhook.Common.{String, Option, none, some, List, [], ◌∷◌}
use cel_admission_webhook.Common.Errors.{Error, Result, ok, err}
use cel_admission_webhook.Kinds.{GroupVersionResource}
use cel_admission_webhook.Clientset.Config.{
  RestConfig, RestHost, Clients, new_client_for_config, new_for_config,
}

-- What a function that may panic does.
pub data Outcome (A : Type 0) : Type 0 where
  returned : A → Outcome A
  panicked : Error → Outcome A

-- `if err != nil { panic(err) }`
abbrev pub or_panic : {A : Type 0} → Result A → Outcome A
or_panic (ok a) = returned a
or_panic (err e) = panicked e

module _ {Limiter Rest Http Client Discovery : Type 0}
    (host : RestHost Limiter Rest Http Client Discovery) where
  -- `NewForConfigOrDie` of the typed client, and of the clientset.
  unfoldable pub new_client_or_die : RestConfig Limiter Rest → Outcome Client
  unfolding new_client_for_config
  new_client_or_die c = or_panic (new_client_for_config host c)

  unfoldable pub new_for_config_or_die :
      RestConfig Limiter Rest → Outcome (Clients Client Discovery)
  unfolding new_for_config
  new_for_config_or_die c = or_panic (new_for_config host c)

-- `New` of the clientset; that of the typed client only holds the REST client.
unfoldable pub new_of_rest :
    {Client Discovery : Type 0} → (Client → Discovery) → Client → Clients Client Discovery
new_of_rest new_discovery_client c = record { v1alpha1 = c; discovery = new_discovery_client c }

-- `RESTClient` and `Discovery`
abbrev pub rest_client : {Client : Type 0} → Option Client → Option Client
rest_client none = none
rest_client (some c) = some c

abbrev pub discovery_of :
    {Client Discovery : Type 0} → Option (Clients Client Discovery) → Option Discovery
discovery_of none = none
discovery_of (some cs) = some cs.discovery

-- A reaction of `testing.Fake`: the action is left to the next reactor, or answered.
pub data Reaction (A : Type 0) : Type 0 where
  unhandled : Error → Reaction A
  handled : A → Reaction A

-- The fake clientset; the reactors stand with the verb and the resource that they are for.
pub record FakeClientset (Tracker React WatchReact : Type 0) : Type 0 where
  pub tracker : Tracker
  pub reactors : List (String × String × React)
  pub watch_reactors : List (String × WatchReact)

-- `testing.ObjectTracker`
pub record TrackerCalls (Object Tracker React Watch : Type 0) : Type 0 where
  pub new_object_tracker : Tracker
  pub add : Object → Tracker → Result Tracker
  pub watch : GroupVersionResource → String → Tracker → Result Watch
  pub object_reaction : Tracker → React

module _ {Object Tracker React Watch : Type 0}
    (calls : TrackerCalls Object Tracker React Watch) where
  -- The loop over the objects.
  unfoldable pub add_each : List Object → Tracker → Outcome Tracker
  add_each [] o = returned o
  add_each (obj ∷ objects) o = elim (calls.add obj o) [
    | err e ↦ panicked e
    | ok o' ↦ add_each objects o'
  ]

  abbrev pub react_to : Result Watch → Reaction Watch
  react_to (err e) = unhandled e
  react_to (ok w) = handled w

  -- The reaction to a watch, by the resource and the namespace of the action.
  unfoldable pub watch_reaction : Tracker → GroupVersionResource → String → Reaction Watch
  watch_reaction o gvr ns = react_to (calls.watch gvr ns o)

  abbrev pub Made : Type 0
  Made = FakeClientset Tracker React (GroupVersionResource → String → Reaction Watch)

  abbrev pub clientset_of : Tracker → Made
  clientset_of o = record {
    tracker = o;
    reactors = ("*", "*", calls.object_reaction o) ∷ [];
    watch_reactors = ("*", watch_reaction o) ∷ [];
  }

  abbrev pub after_adding : Outcome Tracker → Outcome Made
  after_adding (returned o) = returned (clientset_of o)
  after_adding (panicked e) = panicked e

  unfoldable pub new_simple_clientset : List Object → Outcome Made
  unfolding add_each
  new_simple_clientset objects = after_adding (add_each objects calls.new_object_tracker)
