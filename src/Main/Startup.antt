-- ===== src/Main/Startup.antt =====
-- `main` of cmd/cel-admission-webhook/main.go from its flags to `waitGroup.Wait()`. What client-go and
-- the API server's libraries make of the clients is the record Libraries.
pub mod Spawn
pub mod Laws
pub mod Answer
mod Tests
use cel_admission_webhook.Common.{
  ℕ, suc, ◌*◌, String, Bool, false, true, Option, none, some, List, [], ◌∷◌, if◌then◌else◌,
}
use cel_admission_webhook.Common.Errors.{Error, Result, ok, err, ◌>>=◌}
use cel_admission_webhook.Client.Convert.{AdmissionClient, KubeClient, Codecs}
use cel_admission_webhook.Clientset.{SchemeCalls, add_to_scheme}
use cel_admission_webhook.Plugin.{Condition, CelAdmissionPlugin, new_plugin}
use cel_admission_webhook.Resolver
use cel_admission_webhook.Resolver.{new_controller}
use cel_admission_webhook.Factory
use cel_admission_webhook.Factory.{Factory, new_shared_informer_factory}
use cel_admission_webhook.Webhook.{Webhook, new_webhook}
use cel_admission_webhook.Main.Startup.Spawn.{Process, spawn}
use cel_admission_webhook.Main.{Clients, Parts, set_up}

pub record Flags : Type 0 where
  pub cert_file : String
  pub key_file : String
  pub listen_addr : String

-- The flags when they are not given.
abbrev pub default_flags : Flags
default_flags = record {
  cert_file = "server.pem";
  key_file = "server-key.pem";
  listen_addr = "0.0.0.0:8443";
}

-- `Kube` and `Extensions` are the clients of the two factories of the libraries, `Custom` that of the
-- repository's; `Decoder` and `Interfaces` are made of a scheme.
pub record Libraries (Kube Dynamic Extensions : Type 0) : Type 1 where
  pub KubeFactory : Type 0
  pub ExtensionsFactory : Type 0
  pub CrdInformer : Type 0
  pub Discovery : Type 0
  pub Schema : Type 0
  pub Groups : Type 0
  pub Mapper : Type 0
  pub LazyMapper : Type 0
  pub Authorizer : Type 0
  pub Informer : Type 0
  pub Tweak : Type 0
  pub Ev : Type 0
  pub Scheme : Type 0
  pub Decoder : Type 0
  pub Interfaces : Type 0
  pub discovery : Kube → Discovery
  -- the resync period is in seconds
  pub new_kube_factory : Kube → ℕ → KubeFactory
  pub start_kube_factory : KubeFactory → KubeFactory
  pub new_extensions_factory : Extensions → ℕ → ExtensionsFactory
  pub start_extensions_factory : ExtensionsFactory → ExtensionsFactory
  pub crd_informer : ExtensionsFactory → CrdInformer
  pub get_api_group_resources : Discovery → Result Groups
  pub new_discovery_rest_mapper : Groups → Mapper
  pub new_lazy_rest_mapper_loader : Result Mapper → LazyMapper
  pub new_admission_controller :
      KubeFactory
      → Kube
      → LazyMapper
      → Resolver.Controller Discovery CrdInformer Schema
      → Dynamic
      → Option Authorizer
      → Ev × KubeFactory
  pub clientset_scheme : Scheme
  pub scheme_calls : SchemeCalls Scheme
  pub add_extension_types : Scheme → Scheme
  pub add_aggregator_types : Scheme → Scheme
  pub universal_deserializer : Scheme → Decoder
  pub interfaces_from_scheme : Scheme → Interfaces

-- The function that is polled to refresh the REST mapper: it is never done.
unfoldable pub refresh : {M : Type 0} → (M → M) → Condition M
refresh reset mapper = (false, none, reset mapper)

-- How `main` goes: it prints an error and returns, or waits for its goroutines; `process` and the
-- started factories are what runs then.
pub record Up (V W KF CF EF Pl : Type 0) : Type 0 where
  pub process : Process V
  pub plugin : Pl
  pub webhook : W
  pub factory : KF
  pub custom_factory : CF
  pub extensions_factory : EF

pub data Start (U : Type 0) : Type 0 where
  stopped : String → Start U
  waiting : U → Start U

module _ {Options S P B P' B' : Type 0} (codecs : Codecs P B P' B')
    (clients : Clients Options S P B P' B')
    (libraries : Libraries
      (KubeClient Options S P B clients.Others)
      clients.Dynamic
      clients.Extensions) where
  open libraries use {
    KubeFactory, ExtensionsFactory, CrdInformer, Discovery, Schema, Groups, Mapper, LazyMapper,
    Authorizer, Informer, Tweak, Ev, Scheme, Decoder, Interfaces, discovery, new_kube_factory,
    start_kube_factory, new_extensions_factory, start_extensions_factory, crd_informer,
    get_api_group_resources, new_discovery_rest_mapper, new_lazy_rest_mapper_loader,
    new_admission_controller, clientset_scheme, scheme_calls, add_extension_types,
    add_aggregator_types, universal_deserializer, interfaces_from_scheme,
  }

  abbrev pub Kube : Type 0
  Kube = KubeClient Options S P B clients.Others

  abbrev pub MainParts : Type 0
  MainParts = Parts Options S P B P' B' clients.Others clients.Dynamic clients.Extensions

  abbrev pub MainPlugin : Type 0
  MainPlugin =
      CelAdmissionPlugin KubeFactory Kube LazyMapper
        (Resolver.Controller Discovery CrdInformer Schema) clients.Dynamic Authorizer Ev

  -- The function that loads the REST mapper.
  unfoldable pub load_mapper : Kube → Result Mapper
  load_mapper kube = do
    groups ← get_api_group_resources (discovery kube)
    ok (new_discovery_rest_mapper groups)

  -- The plugin of `main`, with its resolver.
  unfoldable pub main_plugin : MainParts → MainPlugin
  unfolding load_mapper new_plugin new_controller
  main_plugin parts =
      new_plugin new_admission_controller (new_kube_factory parts.kube_client 30) parts.kube_client
        (new_lazy_rest_mapper_loader (load_mapper parts.kube_client))
        (new_controller (crd_informer (new_extensions_factory parts.extensions_client 30))
          (discovery parts.kube_client))
        parts.dynamic_client none

  -- `clientsetscheme.Scheme` with all types.
  unfoldable pub main_scheme : Scheme
  unfolding add_to_scheme
  main_scheme =
      add_aggregator_types (add_extension_types (add_to_scheme scheme_calls clientset_scheme))

  module _ {V : Type 0} (multi : List V → V) (validator : MainPlugin → V) (runs : V → Bool) where
    -- The list `validators`.
    unfoldable pub listed : MainParts → List V
    unfolding main_plugin
    listed parts = validator (main_plugin parts) ∷ []

    abbrev pub MainUp : Type 0
    MainUp =
        Up V (Webhook V Interfaces Decoder) KubeFactory
          (Factory (AdmissionClient Options S P' B') Informer Tweak) ExtensionsFactory MainPlugin

    -- After the clients are made; a resync period of the custom factory is in nanoseconds.
    unfoldable pub start_all : Flags → MainParts → MainUp
    unfolding main_plugin listed main_scheme spawn new_webhook new_shared_informer_factory
        Factory.start
    start_all flags parts = record {
      process = spawn runs (listed parts);
      plugin = main_plugin parts;
      webhook =
          new_webhook universal_deserializer interfaces_from_scheme flags.listen_addr
            flags.cert_file flags.key_file main_scheme (multi (listed parts));
      factory = start_kube_factory (main_plugin parts).factory;
      custom_factory =
          Factory.start (new_shared_informer_factory parts.custom_client (30 * 1000000000));
      extensions_factory =
          start_extensions_factory (new_extensions_factory parts.extensions_client 30);
    }

    unfoldable pub start_up : Flags → Start MainUp
    unfolding set_up start_all
    start_up flags = elim (set_up codecs clients) [
      | err e ↦ stopped e.message
      | ok parts ↦ waiting (start_all flags parts)
    ]
