-- ===== src/Factory/History.antt =====
-- The factory over time: informers are asked for, the factory is started and shut down, and the
-- goroutines end, in any order. An end without a goroutine gives `none`.
use cel_admission_webhook.Common.{
  ℕ, zero, suc, ◌-◌, ◌≡◌, ◌≤◌, refl, ◌∙◌, subst, String, true, false, ◌||◌, Option, none, some,
  List, [], ◌∷◌, ◌==◌, arith, eq_iff, length, inl, inr, ◌⊎◌, Option-cases,
}
use cel_admission_webhook.Common.Dict.{lookup, lookup-insert}
use cel_admission_webhook.Factory.{
  Factory, is_started, or_default, start, begin_shutdown, may_return, informer_ends, informer_for,
  new_with_options, apply_all, new_shared_informer_factory,
}
use cel_admission_webhook.Factory.Laws.{
  is_registered, IsExact, start-IsExact, start-same, start-count, start-started,
}
use mathlib.Core.Option

pub data Event (Clients I : Type 0) : Type 0 where
  asked : String → (Clients → ℕ → I) → Event Clients I
  started : Event Clients I
  shut_down : Event Clients I
  ended : Event Clients I

abbrev pub ends : {Clients I : Type 0} → ℕ → List (Event Clients I)
ends zero = []
ends (suc n) = ended ∷ ends n

module _ {Clients I Tweak : Type 0} where
  unfoldable pub step : Factory Clients I Tweak → Event Clients I → Option (Factory Clients I Tweak)
  step f (asked name new_informer) = some (informer_for name new_informer f).1
  step f started = some (start f)
  step f shut_down = some (begin_shutdown f)
  step f ended = informer_ends f

  unfoldable pub run :
      Factory Clients I Tweak → List (Event Clients I) → Option (Factory Clients I Tweak)
  run f [] = some f
  run f (e ∷ events) = elim (step f e) [ none ↦ none | some g ↦ run g events ]

  -- Each type was started once or never, and only if it has an informer; the WaitGroup counts no more
  -- goroutines than were started.
  pub record Inv (f : Factory Clients I Tweak) : Type 0 where
    pub exact : IsExact f
    pub known :
        (name : String) → (is_started name f ≡ false) ⊎ (is_registered name f.informers ≡ true)
    pub counted : f.wg ≤ length f.launched

  informer_for-lookup :
      (name other : String) (new_informer : Clients → ℕ → I) (f : Factory Clients I Tweak)
      → is_registered other (informer_for name new_informer f).1.informers
        ≡ (name == other || is_registered other f.informers)
  unfolding informer_for
  informer_for-lookup name other new_informer f = ground (
    arith,
    eq_iff name other,
    lookup-insert name other
        (new_informer f.client (or_default f.default_resync (lookup name f.custom_resync)))
        f.informers,
  )

  step-Inv :
      (f g : Factory Clients I Tweak) (e : Event Clients I) → step f e ≡ some g → Inv f → Inv g
  unfolding step informer_for begin_shutdown informer_ends
  step-Inv f g (asked name new_informer) h v = subst Inv (Option.some-injective _ _ h) (record {
    exact = λ other. ground (arith, v.exact other);
    known = λ other.
        ground
          (arith, v.known other, informer_for-lookup name other new_informer f, eq_iff name other);
    counted = ground (arith, v.counted);
  })
  step-Inv f g started h v =
      let (same, open') = start-same f in
      subst Inv (Option.some-injective _ _ h) (record {
        exact = start-IsExact f v.exact;
        known = λ name. ground (arith, same, start-started f name, v.known name);
        counted = ground (arith, start-count f, v.counted);
      })
  step-Inv f g shut_down h v =
      subst Inv (Option.some-injective _ _ h)
        (record { exact = v.exact; known = v.known; counted = v.counted })
  step-Inv f g ended h v = record {
    exact = ground (arith, h, v.exact);
    known = ground (arith, h, v.known);
    counted = ground (arith, h, v.counted);
  }

  run-Inv :
      (f g : Factory Clients I Tweak) (events : List (Event Clients I))
      → run f events ≡ some g
      → Inv f
      → Inv g
  unfolding run
  run-Inv f g [] h v = subst Inv (Option.some-injective _ _ h) v
  run-Inv f g (e ∷ events) h v = elim (Option-cases (step f e)) [
    | inl e' ↦ ground (arith, h, e')
    | inr (mid, e') ↦ run-Inv mid g events (ground (arith, h, e')) (step-Inv f mid e e' v)
  ]

  empty-Inv : (client : Clients) (resync : ℕ) → Inv (new_shared_informer_factory client resync)
  unfolding new_shared_informer_factory new_with_options apply_all lookup
  empty-Inv client resync = record {
    exact = λ name. refl;
    known = λ name. inl refl;
    counted = omega arith;
  }

  -- From a new factory, in any order of requests, starts, shutdowns and ends of goroutines: each type was
  -- started once if the factory has it as started and never if not, only types with an informer were
  -- started, and the WaitGroup counts no more goroutines than were started.
  pub history-Inv :
      (client : Clients) (resync : ℕ) (events : List (Event Clients I))
      (f : Factory Clients I Tweak)
      → run (new_shared_informer_factory client resync) events ≡ some f
      → Inv f
  history-Inv client resync events f h = run-Inv _ f events h (empty-Inv client resync)

  -- An informer stays the one of its type.
  step-keeps :
      (f g : Factory Clients I Tweak) (e : Event Clients I) (name : String) (informer : I)
      → step f e ≡ some g
      → lookup name f.informers ≡ some informer
      → lookup name g.informers ≡ some informer
  unfolding step informer_for begin_shutdown informer_ends
  step-keeps f g (asked other new_informer) name informer h held =
      let made =
        new_informer f.client (or_default f.default_resync (lookup other f.custom_resync)) in
      ground (arith, h, held, lookup-insert other name made f.informers, eq_iff other name)
  step-keeps f g started name informer h held = ground (arith, h, held, (start-same f).0)
  step-keeps f g shut_down name informer h held = ground (arith, h, held)
  step-keeps f g ended name informer h held = ground (arith, h, held)

  run-keeps :
      (f g : Factory Clients I Tweak) (events : List (Event Clients I)) (name : String)
      (informer : I)
      → run f events ≡ some g
      → lookup name f.informers ≡ some informer
      → lookup name g.informers ≡ some informer
  unfolding run
  run-keeps f g [] name informer h held = ground (arith, h, held)
  run-keeps f g (e ∷ events) name informer h held = elim (Option-cases (step f e)) [
    | inl e' ↦ ground (arith, h, e')
    | inr (mid, e') ↦
        run-keeps mid g events name informer (ground (arith, h, e'))
          (step-keeps f mid e name informer e' held)
  ]

  informer_for-held :
      (f : Factory Clients I Tweak) (name : String) (new_informer : Clients → ℕ → I)
      → lookup name (informer_for name new_informer f).1.informers
        ≡ some (informer_for name new_informer f).0
  unfolding informer_for
  informer_for-held f name new_informer =
      let made =
        new_informer f.client (or_default f.default_resync (lookup name f.custom_resync)) in
      ground (arith, lookup-insert name name made f.informers, eq_iff name name)

  informer_for-again :
      (f : Factory Clients I Tweak) (name : String) (new_informer : Clients → ℕ → I) (informer : I)
      → lookup name f.informers ≡ some informer
      → informer_for name new_informer f ≡ (informer, f)
  unfolding informer_for
  informer_for-again f name new_informer informer held = rw (informer_for, held) refl

  -- The informer that a request for a type was given is the one that every later request for the type is
  -- given, whatever happened in between and whatever constructor the later request brings; the later
  -- request changes nothing.
  pub informer_for-shared :
      (f g : Factory Clients I Tweak) (name : String) (first later : Clients → ℕ → I)
      (events : List (Event Clients I))
      → run (informer_for name first f).1 events ≡ some g
      → informer_for name later g ≡ ((informer_for name first f).0, g)
  informer_for-shared f g name first later events h =
      informer_for-again g name later (informer_for name first f).0 (
        run-keeps (informer_for name first f).1 g events name (informer_for name first f).0 h
          (informer_for-held f name first))

  step-closed :
      (f g : Factory Clients I Tweak) (e : Event Clients I)
      → step f e ≡ some g
      → f.shutting_down ≡ true
      → (g.shutting_down ≡ true) × (g.launched ≡ f.launched) × (g.wg ≤ f.wg)
  unfolding step informer_for begin_shutdown informer_ends start
  step-closed f g (asked name new_informer) h closing =
      (ground (arith, h, closing), ground (arith, h, closing), ground (arith, h, closing))
  step-closed f g started h closing =
      (ground (arith, h, closing), ground (arith, h, closing), ground (arith, h, closing))
  step-closed f g shut_down h closing =
      (ground (arith, h, closing), ground (arith, h, closing), ground (arith, h, closing))
  step-closed f g ended h closing =
      (ground (arith, h, closing), ground (arith, h, closing), ground (arith, h, closing))

  -- Once a shutdown has begun no informer is started any more and the WaitGroup never rises, whatever
  -- happens.
  pub run-closed :
      (f g : Factory Clients I Tweak) (events : List (Event Clients I))
      → run f events ≡ some g
      → f.shutting_down ≡ true
      → (g.launched ≡ f.launched) × (g.wg ≤ f.wg)
  unfolding run
  run-closed f g [] h closing = (ground (arith, h), ground (arith, h))
  run-closed f g (e ∷ events) h closing = elim (Option-cases (step f e)) [
    | inl e' ↦ ground (arith, h, e')
    | inr (mid, e') ↦
        let (still, same, fewer) = step-closed f mid e e' closing in
        let (same', fewer') = run-closed mid g events (ground (arith, h, e')) still in
        (same' ∙ same, ground (arith, fewer, fewer'))
  ]

  drains :
      (n : ℕ) (f : Factory Clients I Tweak)
      → f.wg ≡ n
      → (g : Factory Clients I Tweak) × (run f (ends n) ≡ some g) × (may_return g ≡ true)
  unfolding run step informer_ends may_return
  drains zero f h = (f, refl, ground (arith, h))
  drains (suc n) f h =
      let (g, ran, returns) = drains n (record f { wg = f.wg - 1 }) (ground (arith, h)) in
      (g, ground (arith, ran, h), returns)

  -- `Shutdown` returns once as many goroutines have ended as the WaitGroup counts.
  pub shutdown-drains :
      (f : Factory Clients I Tweak)
      → (g : Factory Clients I Tweak) × (run f (shut_down ∷ ends f.wg) ≡ some g)
        × (may_return g ≡ true)
  unfolding run step begin_shutdown
  shutdown-drains f = drains f.wg (begin_shutdown f) refl
