-- ===== src/Main/Startup/Laws.antt =====
-- What `main` prints and starts.
use cel_admission_webhook.Common.{
  ◌≡◌, refl, String, Bool, true, Option, none, some, List, [], ◌∷◌, ◌∙◌, subst,
}
use cel_admission_webhook.Common.Errors.{or_else, Result, ok, err, ◌>>=◌}
use Prim.Native.String.{◌++◌ as str_append}
use cel_admission_webhook.Client.Convert.{KubeClient, Codecs}
use cel_admission_webhook.Factory
use cel_admission_webhook.Factory.{new_shared_informer_factory, new_with_options}
use cel_admission_webhook.Main.{Clients, Parts, set_up, load_client_config, explained, make_parts}
use cel_admission_webhook.Main.Startup.{
  Flags, Libraries, Start, stopped, waiting, start_up, start_all, listed, main_plugin, MainPlugin,
  MainUp, MainParts,
}
use cel_admission_webhook.Webhook.{new_webhook}
use cel_admission_webhook.Main.Startup.Spawn.{
  refresher, worker, server, spawn, spawn_workers, signals_end, spawn-counted,
}
use cel_admission_webhook.Main.Lifecycle

abbrev pub printed : {U : Type 0} → Start U → Option String
printed (stopped text) = some text
printed (waiting u) = none

abbrev pub problem : {A : Type 0} → String → Result A → Option String
problem prefix (ok a) = none
problem prefix (err e) = some (str_append prefix e.message)

abbrev pub first_of : List (Option String) → Option String
first_of [] = none
first_of (none ∷ rest) = first_of rest
first_of (some text ∷ rest) = some text

abbrev error_text : {A : Type 0} → Result A → Option String
error_text (ok a) = none
error_text (err e) = some e.message

-- A step of a sequence is reported, or the rest of the sequence goes on.
error_text-explained :
    {A B : Type 0} (prefix : String) (m : Result A) (next : A → Result B)
    (rest : List (Option String))
    → ((a : A) → error_text (next a) ≡ first_of rest)
    → error_text (explained prefix m >>= next) ≡ first_of (problem prefix m ∷ rest)
error_text-explained prefix (ok a) next rest h = h a
error_text-explained prefix (err e) next rest h = refl

module _ {Options S P B P' B' : Type 0} (codecs : Codecs P B P' B')
    (clients : Clients Options S P B P' B') where
  -- The errors of the steps, in their order.
  abbrev pub problems : Result clients.Config → List (Option String)
  problems (err e) = some (str_append "Failed to load Client Configuration: " e.message) ∷ []
  problems (ok c) =
      problem "Failed to create crd client: " (clients.new_crd_client c)
      ∷ problem "Failed to create kubernetes client: " (clients.new_kube_client c)
      ∷ problem "Failed to create dynamic client: " (clients.new_dynamic_client c)
      ∷ problem "Failed to create apiextensions client: " (clients.new_extensions_client c)
      ∷ []

  make_parts-text :
      (c : clients.Config) → error_text (make_parts codecs clients c) ≡ first_of (problems (ok c))
  unfolding make_parts
  make_parts-text c = error_text-explained _ (clients.new_crd_client c) _ _ (λ a.
      error_text-explained _ (clients.new_kube_client c) _ _ (λ b.
        error_text-explained _ (clients.new_dynamic_client c) _ _
          (λ d. error_text-explained _ (clients.new_extensions_client c) _ [] (λ x. refl))))

  set_up-text :
      error_text (set_up codecs clients) ≡ first_of (problems (load_client_config codecs clients))
  unfolding set_up
  set_up-text =
      elim (load_client_config codecs clients)
        as (λ m.
          error_text
            (explained "Failed to load Client Configuration: " m >>= make_parts codecs clients)
          ≡ first_of (problems m)) [ err e ↦ refl | ok c ↦ make_parts-text c ]

  printed-as :
      {U : Type 0}
      (go : Parts Options S P B P' B' clients.Others clients.Dynamic clients.Extensions → U)
      (m : Result (Parts Options S P B P' B' clients.Others clients.Dynamic clients.Extensions))
      → printed (elim m [ err e ↦ stopped e.message | ok parts ↦ waiting (go parts) ])
        ≡ error_text m
  printed-as go (err e) = refl
  printed-as go (ok parts) = refl

  waiting-from :
      {U : Type 0}
      (go : Parts Options S P B P' B' clients.Others clients.Dynamic clients.Extensions → U)
      (m : Result (Parts Options S P B P' B' clients.Others clients.Dynamic clients.Extensions))
      {u : U}
      → elim m [ err e ↦ stopped e.message | ok parts ↦ waiting (go parts) ] ≡ waiting u
      → (parts : Parts Options S P B P' B' clients.Others clients.Dynamic clients.Extensions) × (go
            parts
          ≡ u)
  waiting-from go (err e) h = cc
  waiting-from go (ok parts) h = (parts, cc)

  module _
      (libraries : Libraries
        (KubeClient Options S P B clients.Others)
        clients.Dynamic
        clients.Extensions)
      {V : Type 0} (multi : List V → V) (validator : MainPlugin codecs clients libraries → V)
      (runs : V → Bool) where
    -- `main` prints the error of the first step of its set-up that fails, under the text of that step;
    -- if no step fails it goes on to wait for its goroutines. The first step is to load the kubeconfig's
    -- configuration, or else the cluster's; it fails with the error of the second.
    pub start_up-printed :
        (flags : Flags)
        → printed (start_up codecs clients libraries multi validator runs flags)
          ≡ first_of (problems (or_else clients.client_config clients.in_cluster_config))
    unfolding start_up load_client_config
    start_up-printed flags = printed-as _ (set_up codecs clients) ∙ set_up-text

    -- What is so of everything that runs while `main` waits.
    abbrev pub IsRunning : Flags → MainUp codecs clients libraries multi validator runs → Type 0
    IsRunning flags u =
        (u.process.wg ≡ signals_end u.process.goroutines)
        × (u.process.goroutines ≡ server ∷ worker (validator u.plugin) ∷ refresher ∷ [])
        × (u.process.wg ≡ Lifecycle.start.wg)
        × (u.webhook.validator ≡ multi (validator u.plugin ∷ []))
        × (u.webhook.addr ≡ flags.listen_addr)
        × (u.custom_factory.launched ≡ [])
        × (u.custom_factory.wg ≡ 0)

    start_all-IsRunning :
        ((pl : MainPlugin codecs clients libraries) → runs (validator pl) ≡ true)
        → (flags : Flags) (parts : MainParts codecs clients libraries)
        → IsRunning flags (start_all codecs clients libraries multi validator runs flags parts)
    unfolding start_all listed new_webhook new_shared_informer_factory new_with_options
        Factory.start spawn spawn_workers Lifecycle.start
    start_all-IsRunning runnable flags parts = (
      spawn-counted runs (listed codecs clients libraries multi validator runs parts),
      rw (runnable (main_plugin codecs clients libraries parts)) refl,
      rw (runnable (main_plugin codecs clients libraries parts)) refl,
      refl,
      refl,
      refl,
      refl,
    )

    -- If the plugin is runnable and `main` waits, then it has started the server, one worker for the
    -- plugin and the refresh of the REST mapper, its WaitGroup counts those that signal their end and
    -- is that at which the life of the process starts, the webhook runs on the list of the plugin
    -- alone at the address of the flags, and the factory of the custom clients runs no informer.
    pub start_up-running :
        ((pl : MainPlugin codecs clients libraries) → runs (validator pl) ≡ true)
        → (flags : Flags) (u : MainUp codecs clients libraries multi validator runs)
        → start_up codecs clients libraries multi validator runs flags ≡ waiting u
        → (u.process.wg ≡ signals_end u.process.goroutines)
          × (u.process.goroutines ≡ server ∷ worker (validator u.plugin) ∷ refresher ∷ [])
          × (u.process.wg ≡ Lifecycle.start.wg)
          × (u.webhook.validator ≡ multi (validator u.plugin ∷ []))
          × (u.webhook.addr ≡ flags.listen_addr)
          × (u.custom_factory.launched ≡ [])
          × (u.custom_factory.wg ≡ 0)
    unfolding start_up
    start_up-running runnable flags u h =
        let (parts, same) = waiting-from _ (set_up codecs clients) h in
        subst (IsRunning flags) same (start_all-IsRunning runnable flags parts)
