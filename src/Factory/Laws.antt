-- ===== src/Factory/Laws.antt =====
-- What the operations of Factory.antt do, type by type.
use cel_admission_webhook.Common.{
  ℕ, ◌+◌, ◌≡◌, refl, ◌∙◌, ap, String, Bool, true, false, not, ◌||◌, ◌&&◌, none, List, [], ◌∷◌, ◌==◌,
  arith, eq_iff, if◌then◌else◌, length, Bool-cases, inl, inr, is_none,
}
use mathlib.Core.Option
use cel_admission_webhook.Common.Dict.{Dict, lookup, insert, lookup-insert}
use cel_admission_webhook.Factory.{
  Factory, is_started, launch_each, start, sync_each, wait_for_cache_sync, select_started,
}

-- How often an informer of the type was started.
abbrev pub launches : String → List String → ℕ
launches name [] = 0
launches name (other ∷ rest) = (if other == name then 1 else 0) + launches name rest

abbrev pub bit : Bool → ℕ
bit true = 1
bit false = 0

abbrev pub is_registered : {I : Type 0} → String → Dict I → Bool
is_registered name informers = not (is_none (lookup name informers))

module _ {Clients I Tweak : Type 0} where
  -- Every type was started once or never, as the factory has it in `started`.
  abbrev pub IsExact : Factory Clients I Tweak → Type 0
  IsExact f = (name : String) → launches name f.launched ≡ bit (is_started name f)

  -- One round of the loop.
  abbrev pub launched_one : String → Factory Clients I Tweak → Factory Clients I Tweak
  launched_one name f = record f {
    wg = f.wg + 1;
    launched = name ∷ f.launched;
    started = insert name true f.started;
  }

  pub started_one :
      (name other : String) (f : Factory Clients I Tweak)
      → is_started other (if is_started name f then f else launched_one name f)
        ≡ (if name == other then true else is_started other f)
  started_one name other f =
      ground (arith, lookup-insert name other true f.started, eq_iff name other)

  exact_one :
      (name : String) (f : Factory Clients I Tweak)
      → IsExact f
      → IsExact (if is_started name f then f else launched_one name f)
  exact_one name f h other =
      ground (arith, h other, lookup-insert name other true f.started, eq_iff name other)

  launch_each-IsExact :
      (informers : Dict I) (f : Factory Clients I Tweak)
      → IsExact f
      → IsExact (launch_each informers f)
  unfolding launch_each
  launch_each-IsExact [] f h = h
  launch_each-IsExact ((name, i) ∷ rest) f h = launch_each-IsExact rest _ (exact_one name f h)

  launch_each-started :
      (other : String) (informers : Dict I) (f : Factory Clients I Tweak)
      → is_started other (launch_each informers f)
        ≡ (is_registered other informers || is_started other f)
  unfolding launch_each lookup
  launch_each-started other [] f = refl
  launch_each-started other ((name, i) ∷ rest) f =
      launch_each-started other rest _ ∙ ground (arith, started_one name other f)

  -- What the loop leaves alone.
  launch_each-same :
      (informers : Dict I) (f : Factory Clients I Tweak)
      → ((launch_each informers f).informers ≡ f.informers)
        × ((launch_each informers f).shutting_down ≡ f.shutting_down)
  unfolding launch_each
  launch_each-same [] f = (refl, refl)
  launch_each-same ((name, i) ∷ rest) f =
      let (same, open') =
        launch_each-same rest (if is_started name f then f else launched_one name f) in
      (same ∙ ground arith, open' ∙ ground arith)

  launch_each-count :
      (informers : Dict I) (f : Factory Clients I Tweak)
      → length (launch_each informers f).launched + f.wg
        ≡ (launch_each informers f).wg + length f.launched
  unfolding launch_each
  launch_each-count [] f = omega arith
  launch_each-count ((name, i) ∷ rest) f =
      let later = launch_each-count rest (if is_started name f then f else launched_one name f) in
      ground (arith, later)

  -- The fields that no round of the loop touches.
  abbrev pub SameConfig : Factory Clients I Tweak → Factory Clients I Tweak → Type 0
  SameConfig f g =
      (f.client ≡ g.client)
      × (f.namespace ≡ g.namespace)
      × (f.tweak_list_options ≡ g.tweak_list_options)
      × (f.default_resync ≡ g.default_resync)
      × (f.custom_resync ≡ g.custom_resync)

  launch_each-config :
      (informers : Dict I) (f : Factory Clients I Tweak) → SameConfig (launch_each informers f) f
  unfolding launch_each
  launch_each-config [] f = (refl, refl, refl, refl, refl)
  launch_each-config ((name, i) ∷ rest) f =
      ground (arith, launch_each-config rest (if is_started name f then f else launched_one name f))

  start_cases :
      (P : Factory Clients I Tweak → Type 0) (f : Factory Clients I Tweak)
      → P f
      → P (launch_each f.informers f)
      → P (start f)
  unfolding start
  start_cases P f closing open' = elim (Bool-cases f.shutting_down) [
    | inl e ↦ simp e closing
    | inr e ↦ simp e open'
  ]

  pub start-IsExact : (f : Factory Clients I Tweak) → IsExact f → IsExact (start f)
  start-IsExact f h = start_cases IsExact f h (launch_each-IsExact f.informers f h)

  pub start-started :
      (f : Factory Clients I Tweak) (name : String)
      → is_started name (start f)
        ≡ ((not f.shutting_down && is_registered name f.informers) || is_started name f)
  unfolding start
  start-started f name = ground (arith, launch_each-started name f.informers f)

  pub start-same :
      (f : Factory Clients I Tweak)
      → ((start f).informers ≡ f.informers) × ((start f).shutting_down ≡ f.shutting_down)
  start-same f =
      start_cases (λ g. (g.informers ≡ f.informers) × (g.shutting_down ≡ f.shutting_down)) f
        (refl, refl) (launch_each-same f.informers f)

  pub start-config : (f : Factory Clients I Tweak) → SameConfig (start f) f
  start-config f =
      start_cases (λ g. SameConfig g f) f (refl, refl, refl, refl, refl)
        (launch_each-config f.informers f)

  pub start-count :
      (f : Factory Clients I Tweak)
      → length (start f).launched + f.wg ≡ (start f).wg + length f.launched
  start-count f =
      start_cases (λ g. length g.launched + f.wg ≡ g.wg + length f.launched) f (omega arith)
        (launch_each-count f.informers f)

  -- After `Start` every type that has an informer was started once, when each type was started once or
  -- never before; a factory that is shutting down starts nothing.
  pub start-launches :
      (f : Factory Clients I Tweak)
      → IsExact f
      → (name : String)
      → launches name (start f).launched ≡ (
          if f.shutting_down
          then launches name f.launched
          else bit (is_registered name f.informers || is_started name f))
  unfolding start
  start-launches f h name = elim (Bool-cases f.shutting_down) [
    | inl closing ↦ simp closing refl
    | inr open' ↦
        simp open' (
          launch_each-IsExact f.informers f h name
          ∙ ap bit (launch_each-started name f.informers f))
  ]

  sync_each-lookup :
      (synced : I → Bool) (f : Factory Clients I Tweak) (name : String) (informers : Dict I)
      → lookup name (sync_each synced (select_started f informers))
        ≡ (if is_started name f then Option.map synced (lookup name informers) else none)
  unfolding select_started sync_each lookup
  sync_each-lookup synced f name [] = ground arith
  sync_each-lookup synced f name ((k, i) ∷ rest) =
      ground (arith, sync_each-lookup synced f name rest, eq_iff k name)

  -- `WaitForCacheSync` answers for the informers that were started, and for no other type.
  pub wait_for_cache_sync-lookup :
      (synced : I → Bool) (f : Factory Clients I Tweak) (name : String)
      → lookup name (wait_for_cache_sync synced f)
        ≡ (if is_started name f then Option.map synced (lookup name f.informers) else none)
  unfolding wait_for_cache_sync
  wait_for_cache_sync-lookup synced f name = sync_each-lookup synced f name f.informers
