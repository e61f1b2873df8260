-- ===== src/Main.antt =====
-- cmd/cel-admission-webhook/main.go: the clients, the validator that the webhook is given, (in Startup) how it
-- starts, and (in Lifecycle) how its goroutines end. The constructors of the clients and the evaluator stand outside the
-- repository.
pub mod Lifecycle
pub mod Verdict
pub mod Answer
pub mod Startup
mod Tests
use cel_admission_webhook.Common.{ℕ, String, Bool, Option, List, [], ◌∷◌}
use cel_admission_webhook.Common.Errors.{Error, Result, ok, err, or_else, ◌>>=◌, errorf}
use Prim.Native.String.{◌++◌ as str_append}
use cel_admission_webhook.Validator.{Validator, new_multi}
use cel_admission_webhook.Plugin
use cel_admission_webhook.Plugin.{Condition, plugin}
use cel_admission_webhook.Client.Convert.{AdmissionClient, KubeClient, Codecs, new_wrapped_client}
use cel_admission_webhook.Webhook.Handler.{Backend, Attributes}

-- The configuration and the clients that it gives.
pub record Clients (Options S P B P' B' : Type 0) : Type 1 where
  pub Config : Type 0
  pub Others : Type 0
  pub Dynamic : Type 0
  pub Extensions : Type 0
  pub client_config : Result Config
  pub in_cluster_config : Result Config
  pub new_crd_client : Config → Result (AdmissionClient Options S P' B')
  pub new_kube_client : Config → Result (KubeClient Options S P B Others)
  pub new_dynamic_client : Config → Result Dynamic
  pub new_extensions_client : Config → Result Extensions

-- What `main` goes on with.
pub record Parts (Options S P B P' B' Others Dynamic Extensions : Type 0) : Type 0 where
  pub custom_client : AdmissionClient Options S P' B'
  pub kube_client : KubeClient Options S P B Others
  pub dynamic_client : Dynamic
  pub extensions_client : Extensions

-- `if err != nil { klog.Errorf("...: %v", err); return }`
abbrev pub explained : {A : Type 0} → String → Result A → Result A
explained prefix (ok a) = ok a
explained prefix (err e) = err (errorf (str_append prefix e.message))

module _ {Options S P B P' B' : Type 0} (codecs : Codecs P B P' B')
    (clients : Clients Options S P B P' B') where
  open clients use {
    Config, Others, Dynamic, Extensions, client_config, in_cluster_config, new_crd_client,
    new_kube_client, new_dynamic_client, new_extensions_client,
  }

  unfoldable pub load_client_config : Result Config
  load_client_config = or_else client_config in_cluster_config

  -- The clients that `main` makes of a configuration.
  unfoldable pub make_parts : Config → Result (Parts Options S P B P' B' Others Dynamic Extensions)
  make_parts rest_config = do
    custom_client ← explained "Failed to create crd client: " (new_crd_client rest_config)
    unwrapped ← explained "Failed to create kubernetes client: " (new_kube_client rest_config)
    dynamic_client ← explained "Failed to create dynamic client: " (new_dynamic_client rest_config)
    extensions_client ←
        explained "Failed to create apiextensions client: " (new_extensions_client rest_config)
    ok (record {
      custom_client = custom_client;
      kube_client = new_wrapped_client codecs unwrapped custom_client;
      dynamic_client = dynamic_client;
      extensions_client = extensions_client;
    })

  -- `main` up to its first goroutine; the error is what is printed, and nothing is started.
  unfoldable pub set_up : Result (Parts Options S P B P' B' Others Dynamic Extensions)
  unfolding load_client_config make_parts
  set_up = do
    rest_config ← explained "Failed to load Client Configuration: " load_client_config
    make_parts rest_config

-- The evaluator and the calls around it, for the attributes that the webhook makes.
pub record Evaluator (Object : Type 0) : Type 1 where
  pub State : Type 0
  pub has_synced : State → Bool × State
  pub validate : Attributes Object → State → Option Error × State
  pub poll_immediate : (interval timeout : ℕ) → Condition State → State → Option Error × State
  pub new_forbidden : Attributes Object → Error → Error

module _ {Object : Type 0} (evaluator : Evaluator Object) where
  open evaluator use {State, has_synced, validate, poll_immediate, new_forbidden}

  abbrev pub plugin_host : Plugin.Host
  plugin_host = record {
    Attributes = Attributes Object;
    State = State;
    get_resource = λ a. a.resource;
    evaluator_has_synced = has_synced;
    evaluator_validate = validate;
    poll_immediate = poll_immediate;
    new_forbidden = new_forbidden;
  }

  abbrev pub operation_of : Attributes Object → String
  operation_of a = a.operation

  -- `validators`
  unfoldable pub validators : List (Validator (Attributes Object) State)
  validators = plugin plugin_host ∷ []

  -- `validator.NewMulti(validators...)`
  unfoldable pub webhook_validator : Validator (Attributes Object) State
  webhook_validator = new_multi operation_of validators

-- The webhook of `main`, when the evaluator is in a state: the handler's surroundings with the
-- validator that `webhook.New` is given.
unfoldable pub webhook_backend :
    (b : Backend) (evaluator : Evaluator b.Object) → evaluator.State → Backend
webhook_backend b evaluator s = record b {
  handles = (webhook_validator evaluator).handles;
  validate = λ a. ((webhook_validator evaluator).validate a s).0;
}
