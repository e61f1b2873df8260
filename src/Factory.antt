-- ===== src/Factory.antt =====
-- pkg/generated/informers/externalversions/factory.go: the informers of the custom API, each made once
-- for its type and started once. An informer is a value of any type; its type's name stands for
-- `reflect.TypeOf`. The list `launched` records the types whose informer was handed to a goroutine;
-- durations are nanoseconds.
pub mod Laws
pub mod History
pub mod Groups
pub mod Order
mod Tests
use cel_admission_webhook.Common.{
  ℕ, zero, suc, ◌+◌, ◌-◌, String, Bool, true, false, ◌||◌, Option, none, some, List, [], ◌∷◌, ◌==◌,
  nat_eq, if◌then◌else◌,
}
use cel_admission_webhook.Common.Dict.{Dict, lookup, insert}

pub record Factory (Clients I Tweak : Type 0) : Type 0 where
  pub client : Clients
  pub namespace : String
  pub tweak_list_options : Option Tweak
  pub default_resync : ℕ
  pub custom_resync : Dict ℕ
  pub informers : Dict I
  pub started : Dict Bool
  pub wg : ℕ
  pub shutting_down : Bool
  pub launched : List String

-- Go's value of a missing key.
abbrev pub or_false : Option Bool → Bool
or_false none = false
or_false (some b) = b

abbrev pub or_default : ℕ → Option ℕ → ℕ
or_default n none = n
or_default n (some m) = m

-- A `SharedInformerOption`.
abbrev pub InformerOption : Type 0 → Type 0 → Type 0 → Type 0
InformerOption Clients I Tweak = Factory Clients I Tweak → Factory Clients I Tweak

insert_all : Dict ℕ → Dict ℕ → Dict ℕ
insert_all [] into = into
insert_all ((k, v) ∷ rest) into = insert_all rest (insert k v into)

sync_each : {I : Type 0} → (I → Bool) → Dict I → Dict Bool
sync_each synced [] = []
sync_each synced ((name, informer) ∷ rest) = (name, synced informer) ∷ sync_each synced rest

module _ {Clients I Tweak : Type 0} where
  unfoldable pub with_custom_resync_config : Dict ℕ → InformerOption Clients I Tweak
  unfolding insert_all
  with_custom_resync_config resync f = record f {
    custom_resync = insert_all resync f.custom_resync;
  }

  unfoldable pub with_tweak_list_options : Tweak → InformerOption Clients I Tweak
  with_tweak_list_options tweak f = record f { tweak_list_options = some tweak }

  unfoldable pub with_namespace : String → InformerOption Clients I Tweak
  with_namespace namespace f = record f { namespace = namespace }

  apply_all :
      List (InformerOption Clients I Tweak) → Factory Clients I Tweak → Factory Clients I Tweak
  apply_all [] f = f
  apply_all (opt ∷ opts) f = apply_all opts (opt f)

  unfoldable pub new_with_options :
      Clients → ℕ → List (InformerOption Clients I Tweak) → Factory Clients I Tweak
  unfolding apply_all
  new_with_options client default_resync options = apply_all options (record {
    client = client;
    namespace = "";
    tweak_list_options = none;
    default_resync = default_resync;
    custom_resync = [];
    informers = [];
    started = [];
    wg = 0;
    shutting_down = false;
    launched = [];
  })

  unfoldable pub new_shared_informer_factory : Clients → ℕ → Factory Clients I Tweak
  new_shared_informer_factory client default_resync = new_with_options client default_resync []

  unfoldable pub new_filtered : Clients → ℕ → String → Tweak → Factory Clients I Tweak
  new_filtered client default_resync namespace tweak =
      new_with_options client default_resync
        (with_namespace namespace ∷ with_tweak_list_options tweak ∷ [])

  abbrev pub is_started : String → Factory Clients I Tweak → Bool
  is_started name f = or_false (lookup name f.started)

  -- The loop of `Start` over the informers.
  launch_each : Dict I → Factory Clients I Tweak → Factory Clients I Tweak
  launch_each [] f = f
  launch_each ((name, informer) ∷ rest) f = launch_each rest (
      if is_started name f then f else record f {
        wg = f.wg + 1;
        launched = name ∷ f.launched;
        started = insert name true f.started;
      })

  unfoldable pub start : Factory Clients I Tweak → Factory Clients I Tweak
  unfolding launch_each
  start f = if f.shutting_down then f else launch_each f.informers f

  -- `Shutdown` marks the factory, and returns when the WaitGroup is at zero.
  unfoldable pub begin_shutdown : Factory Clients I Tweak → Factory Clients I Tweak
  begin_shutdown f = record f { shutting_down = true }

  unfoldable pub may_return : Factory Clients I Tweak → Bool
  may_return f = nat_eq f.wg 0

  -- The goroutine of an informer ends with `wg.Done()`.
  unfoldable pub informer_ends : Factory Clients I Tweak → Option (Factory Clients I Tweak)
  informer_ends f = if nat_eq f.wg 0 then none else some (record f { wg = f.wg - 1 })

  -- `InformerFor`; `new_informer` is called with the client and the resync period.
  unfoldable pub informer_for :
      String → (Clients → ℕ → I) → Factory Clients I Tweak → I × Factory Clients I Tweak
  informer_for name new_informer f = elim (lookup name f.informers) [
    | some informer ↦ (informer, f)
    | none ↦
        let informer =
          new_informer f.client (or_default f.default_resync (lookup name f.custom_resync)) in
        (informer, record f { informers = insert name informer f.informers })
  ]

  -- The loops of `WaitForCacheSync`; `synced` is `cache.WaitForCacheSync` for one informer.
  select_started : Factory Clients I Tweak → Dict I → Dict I
  select_started f [] = []
  select_started f ((name, informer) ∷ rest) =
      if is_started name f then (name, informer) ∷ select_started f rest else select_started f rest

  unfoldable pub wait_for_cache_sync : (I → Bool) → Factory Clients I Tweak → Dict Bool
  unfolding select_started sync_each
  wait_for_cache_sync synced f = sync_each synced (select_started f f.informers)
