-- ===== src/Plugin.antt =====
-- pkg/controller/admissionregistration.x-k8s.io/v1alpha1/plugin.go: the admission plugin around the
-- CEL evaluator. The evaluator, `wait.PollImmediateWithContext` and `admission.NewForbidden` stand
-- outside the repository: they are the record `Host`. `State` is all that they read and change, the
-- clock included.
pub mod Laws
mod Tests
use cel_admission_webhook.Common.{
  ℕ, String, Bool, true, false, Option, none, some, ◌&&◌, ◌||◌, ◌==◌, if◌then◌else◌,
}
use cel_admission_webhook.Common.Errors.{Error, errorf}
use cel_admission_webhook.Kinds.{GroupVersionResource}
use cel_admission_webhook.Validator.{Validator}

-- The plugin's fields; `F` is the factory of informers with what has been requested from it.
pub record CelAdmissionPlugin (F Kube Mapper Resolver Dynamic Authorizer Ev : Type 0) : Type 0 where
  pub factory : F
  pub client : Kube
  pub rest_mapper : Mapper
  pub schema_resolver : Resolver
  pub dynamic_client : Dynamic
  pub authorizer : Option Authorizer
  pub evaluator : Ev

-- `NewPlugin`; `validatingadmissionpolicy.NewAdmissionController` requests informers from the factory.
unfoldable pub new_plugin :
    {F Kube Mapper Resolver Dynamic Authorizer Ev : Type 0}
    → (F → Kube → Mapper → Resolver → Dynamic → Option Authorizer → Ev × F)
    → F
    → Kube
    → Mapper
    → Resolver
    → Dynamic
    → Option Authorizer
    → CelAdmissionPlugin F Kube Mapper Resolver Dynamic Authorizer Ev
new_plugin new_admission_controller factory client mapper resolver dynamic authorizer =
    let (evaluator, requested) =
      new_admission_controller factory client mapper resolver dynamic authorizer in
    record {
      factory = requested;
      client = client;
      rest_mapper = mapper;
      schema_resolver = resolver;
      dynamic_client = dynamic;
      authorizer = authorizer;
      evaluator = evaluator;
    }

-- `Run`: the evaluator's, until the context ends.
unfoldable pub run : {S : Type 0} → (S → S) → S → Option Error × S
run evaluator_run s = (none, evaluator_run s)

-- A `wait.ConditionWithContextFunc`: whether the wait is done, or an error, and what it changed.
abbrev pub Condition : Type 0 → Type 0
Condition State = State → Bool × Option Error × State

pub record Host : Type 1 where
  pub Attributes : Type 0
  pub State : Type 0
  pub get_resource : Attributes → GroupVersionResource
  pub evaluator_has_synced : State → Bool × State
  pub evaluator_validate : Attributes → State → Option Error × State
  -- interval and timeout, in milliseconds
  pub poll_immediate : (interval timeout : ℕ) → Condition State → State → Option Error × State
  pub new_forbidden : Attributes → Error → Error

abbrev is_policy_group : String → Bool
is_policy_group group =
    group == "admissionregistration.k8s.io" || group == "admissionregistration.x-k8s.io"

abbrev is_policy_name : String → Bool
is_policy_name resource =
    resource == "validatingadmissionpolicies" || resource == "validatingadmissionpolicybindings"

unfoldable pub is_policy_resource : GroupVersionResource → Bool
is_policy_resource r = is_policy_group r.group && is_policy_name r.resource

-- `Handles`
unfoldable pub handles : String → Bool
handles operation = true

module _ (h : Host) where
  open h use {
    Attributes, State, get_resource, evaluator_has_synced, evaluator_validate, poll_immediate,
    new_forbidden,
  }

  unfoldable pub has_synced : State → Bool × State
  has_synced = evaluator_has_synced

  -- The function that `Validate` polls.
  unfoldable pub synced_condition : Condition State
  unfolding has_synced
  synced_condition s = let (done, t) = has_synced s in (done, none, t)

  after_poll : Attributes → Option Error × State → Option Error × State
  after_poll a (none, t) = evaluator_validate a t
  after_poll a (some e, t) = (some (new_forbidden a (errorf "not yet ready to handle request")), t)

  unfoldable pub validate : Attributes → State → Option Error × State
  unfolding after_poll
  validate a s =
      if is_policy_resource (get_resource a)
      then (none, s)
      else after_poll a (poll_immediate 100 1000 synced_condition s)

  -- The plugin as the validator that `main` lists.
  unfoldable pub plugin : Validator Attributes State
  plugin = record { handles = handles; validate = validate }
