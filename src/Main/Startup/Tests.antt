-- ===== src/Main/Startup/Tests.antt =====
-- `main` on clients that can be made, and on a kubernetes client that cannot.
use cel_admission_webhook.Common.{ℕ, ◌≡◌, refl, String, Bool, true, none, some, List, [], ◌∷◌}
use cel_admission_webhook.Common.Errors.{Result, ok, err, errorf}
use cel_admission_webhook.Client.{ClientInterface, answered}
use cel_admission_webhook.Client.Convert.{
  Codec, AdmissionClient, KubeClient, Codecs, new_wrapped_client,
}
use cel_admission_webhook.Main.{Clients, make_parts, set_up, load_client_config}
use cel_admission_webhook.Main.Lifecycle
use cel_admission_webhook.Main.Startup.{
  Libraries, default_flags, MainUp, start_up, start_all, waiting,
}
use cel_admission_webhook.Main.Startup.Spawn.{server, worker, refresher, signals_end}
use cel_admission_webhook.Main.Startup.Laws.{printed, start_up-printed, start_up-running}

abbrev text_codec : Codec String String
text_codec = record {
  Json = String;
  marshal = λ s. ok s;
  unmarshal = λ j. (j, none);
  version_of = λ s. s;
  with_version = λ v s. v;
}

abbrev pub text_codecs : Codecs String String String String
text_codecs = record {
  policy_out = text_codec;
  policy_in = text_codec;
  binding_out = text_codec;
  binding_in = text_codec;
}

abbrev empty_client : ClientInterface ℕ String String
empty_client = record {
  create = λ a o s. (ok a, a);
  update = λ a o s. (ok a, a);
  update_status = λ a o s. (ok a, a);
  delete = λ n o s. (none, "");
  delete_collection = λ o l s. (none, "");
  get = λ n o s. (ok s, s);
  list = λ o s. (err (errorf "no list"), s);
  watch = λ o s. (ok [], s);
  patch = λ n pt data' o subresources s. (answered (ok s), s);
}

abbrev pub admission : AdmissionClient ℕ String String String
admission = record { policies = empty_client; bindings = empty_client }

-- In the cluster, with a kubernetes client that may be refused.
abbrev in_cluster :
    Result (KubeClient ℕ String String String ℕ) → Clients ℕ String String String String String
in_cluster kube = record {
  Config = String;
  Others = ℕ;
  Dynamic = ℕ;
  Extensions = ℕ;
  client_config = err (errorf "no file");
  in_cluster_config = ok "cluster";
  new_crd_client = λ c. ok admission;
  new_kube_client = λ c. kube;
  new_dynamic_client = λ c. ok 1;
  new_extensions_client = λ c. err (errorf "no extensions");
}

abbrev pub made : Clients ℕ String String String String String
made = record (in_cluster (ok (record { admission = admission; others = 0 }))) {
  new_extensions_client = λ c. ok 2;
}

abbrev pub counts :
    (clients : Clients ℕ String String String String String)
    → Libraries
        (KubeClient ℕ String String String clients.Others)
        clients.Dynamic
        clients.Extensions
counts clients = record {
  KubeFactory = ℕ;
  ExtensionsFactory = ℕ;
  CrdInformer = ℕ;
  Discovery = ℕ;
  Schema = ℕ;
  Groups = ℕ;
  Mapper = ℕ;
  LazyMapper = Result ℕ;
  Authorizer = ℕ;
  Informer = ℕ;
  Tweak = ℕ;
  Ev = ℕ;
  Scheme = ℕ;
  Decoder = ℕ;
  Interfaces = ℕ;
  discovery = λ kube. 3;
  new_kube_factory = λ kube resync. resync;
  start_kube_factory = λ f. f;
  new_extensions_factory = λ c resync. resync;
  start_extensions_factory = λ f. f;
  crd_informer = λ f. f;
  get_api_group_resources = λ d. ok d;
  new_discovery_rest_mapper = λ g. g;
  new_lazy_rest_mapper_loader = λ m. m;
  new_admission_controller = λ f kube m r d a. (4, f);
  clientset_scheme = 0;
  scheme_calls = record { add_known_types = λ gv kinds s. s; add_to_group_version = λ gv s. s };
  add_extension_types = λ s. s;
  add_aggregator_types = λ s. s;
  universal_deserializer = λ s. s;
  interfaces_from_scheme = λ s. s;
}

abbrev first_name : List String → String
first_name [] = "none"
first_name (v ∷ vs) = v

abbrev refused : Clients ℕ String String String String String
refused = in_cluster (err (errorf "denied"))

abbrev runs_all : String → Bool
runs_all v = true

start_up-printed_example :
    printed (
      start_up text_codecs refused
        (counts refused)
        first_name
        (λ pl. "plugin")
        runs_all
        default_flags)
    ≡ some "Failed to create kubernetes client: denied"
unfolding load_client_config
start_up-printed_example =
    start_up-printed text_codecs refused (counts refused) first_name (λ pl. "plugin") runs_all
      default_flags

abbrev up : MainUp text_codecs made (counts made) first_name (λ pl. "plugin") runs_all
up =
    start_all text_codecs made (counts made) first_name (λ pl. "plugin") runs_all default_flags
      (record {
        custom_client = admission;
        kube_client =
            new_wrapped_client text_codecs (record { admission = admission; others = 0 }) admission;
        dynamic_client = 1;
        extensions_client = 2;
      })

goes_up :
    start_up text_codecs made (counts made) first_name (λ pl. "plugin") runs_all default_flags
    ≡ waiting up
unfolding start_up set_up make_parts load_client_config
goes_up = refl

start_up-running_example :
    (up.process.wg ≡ signals_end up.process.goroutines)
    × (up.process.goroutines ≡ server ∷ worker "plugin" ∷ refresher ∷ [])
    × (up.process.wg ≡ Lifecycle.start.wg)
    × (up.webhook.validator ≡ "plugin")
    × (up.webhook.addr ≡ "0.0.0.0:8443")
    × (up.custom_factory.launched ≡ [])
    × (up.custom_factory.wg ≡ 0)
start_up-running_example =
    start_up-running text_codecs made (counts made) first_name (λ pl. "plugin") runs_all
      (λ pl. refl) default_flags up goes_up
