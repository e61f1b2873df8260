-- ===== src/Factory/Order.antt =====
-- Go leaves the order of a map open, and an association list has one. States of the factory with the
-- same entries in their maps are one state here, in a quotient; the runs of the factory respect it.
mod Tests
use cel_admission_webhook.Common.{
  ℕ, ◌+◌, ◌≤◌, ◌≡◌, refl, sym, ap, ◌∙◌, String, Bool, true, false, not, ◌||◌, ◌&&◌, Option, none,
  some, List, [], ◌∷◌, ◌==◌, arith, eq_iff, if◌then◌else◌, length, Bool-cases, inl, inr, nat_eq,
  ◌-◌,
}
use mathlib.Core.Option
use mathlib.Core.Quot
use mathlib.Core.Quot.{Quot}
use cel_admission_webhook.Common.Dict.{Dict, lookup, insert, lookup-insert}
use cel_admission_webhook.Factory.{
  Factory, is_started, or_default, launch_each, start, begin_shutdown, informer_ends, informer_for,
}
use cel_admission_webhook.Factory.Laws.{
  launches, bit, is_registered, start-started, start-same, start-count, start-config, launched_one,
  started_one,
}
use cel_admission_webhook.Factory.History.{Event, asked, started, shut_down, ended, step, run}

abbrev without : String → List String → List String
without name [] = []
without name (other ∷ rest) = if other == name then rest else other ∷ without name rest

launches-without :
    (name other : String) (xs : List String)
    → 1 ≤ launches name xs
    → launches other (without name xs) + (if name == other then 1 else 0) ≡ launches other xs
launches-without name other [] h = absurd (omega arith)
launches-without name other (x ∷ xs) h =
    ground (arith, launches-without name other xs, eq_iff x name, eq_iff x other, eq_iff name other)

length-without :
    (name : String) (xs : List String)
    → 1 ≤ launches name xs
    → length (without name xs) + 1 ≡ length xs
length-without name [] h = absurd (omega arith)
length-without name (x ∷ xs) h = ground (arith, length-without name xs, eq_iff x name)

-- Lists that hold each name as often as one another are of one length.
length_of_launches :
    (xs ys : List String)
    → ((name : String) → launches name xs ≡ launches name ys)
    → length xs ≡ length ys
length_of_launches [] [] h = refl
length_of_launches [] (y ∷ ys) h = ground (arith, h y, eq_iff y y)
length_of_launches (x ∷ xs) ys h =
    let held : 1 ≤ launches x ys = ground (arith, h x, eq_iff x x) in
    let shorter =
      length_of_launches xs (without x ys)
        (λ name. ground (arith, h name, launches-without x name ys held)) in
    ground (arith, shorter, length-without x ys held)

module _ {Clients I Tweak : Type 0} where
  -- What `Start` adds for one type.
  launch_each-launches :
      (name : String) (informers : Dict I) (f : Factory Clients I Tweak)
      → launches name (launch_each informers f).launched
        ≡ launches name f.launched + bit (is_registered name informers && not (is_started name f))
  unfolding launch_each lookup
  launch_each-launches name [] f = ground arith
  launch_each-launches name ((k, i) ∷ rest) f = ground (
    arith,
    launch_each-launches name rest (if is_started k f then f else launched_one k f),
    started_one k name f,
    eq_iff k name,
  )

  start-launches_added :
      (name : String) (f : Factory Clients I Tweak)
      → launches name (start f).launched
        ≡ launches name f.launched
          + bit (not f.shutting_down && (is_registered name f.informers && not (is_started name f)))
  unfolding start
  start-launches_added name f = ground (arith, launch_each-launches name f.informers f)

  -- States with the same entries in their maps; of the goroutines started only how often each type
  -- was is compared.
  pub record Same (f g : Factory Clients I Tweak) : Type 0 where
    pub client : f.client ≡ g.client
    pub namespace : f.namespace ≡ g.namespace
    pub tweak_list_options : f.tweak_list_options ≡ g.tweak_list_options
    pub default_resync : f.default_resync ≡ g.default_resync
    pub custom_resync : (name : String) → lookup name f.custom_resync ≡ lookup name g.custom_resync
    pub informers : (name : String) → lookup name f.informers ≡ lookup name g.informers
    pub started : (name : String) → is_started name f ≡ is_started name g
    pub wg : f.wg ≡ g.wg
    pub shutting_down : f.shutting_down ≡ g.shutting_down
    pub launched : (name : String) → launches name f.launched ≡ launches name g.launched

  start-Same : (f g : Factory Clients I Tweak) → Same f g → Same (start f) (start g)
  start-Same f g s =
      let added : ((name : String)
          → launches name (start f).launched ≡ launches name (start g).launched) =
        λ name. ground (
          arith,
          start-launches_added name f,
          start-launches_added name g,
          s.launched name,
          s.informers name,
          s.started name,
          s.shutting_down,
        ) in
      record {
        client = ground (arith, start-config f, start-config g, s.client);
        namespace = ground (arith, start-config f, start-config g, s.namespace);
        tweak_list_options = ground (arith, start-config f, start-config g, s.tweak_list_options);
        default_resync = ground (arith, start-config f, start-config g, s.default_resync);
        custom_resync =
            λ name. ground (arith, start-config f, start-config g, s.custom_resync name);
        informers = λ name. ground (arith, start-same f, start-same g, s.informers name);
        started = λ name. ground (
          arith,
          start-started f name,
          start-started g name,
          s.informers name,
          s.started name,
          s.shutting_down,
        );
        wg = ground (
          arith,
          start-count f,
          start-count g,
          s.wg,
          length_of_launches f.launched g.launched s.launched,
          length_of_launches (start f).launched (start g).launched added,
        );
        shutting_down = ground (arith, start-same f, start-same g, s.shutting_down);
        launched = added;
      }

  informer_for-Same :
      (f g : Factory Clients I Tweak) (name : String) (make : Clients → ℕ → I)
      → Same f g
      → ((informer_for name make f).0 ≡ (informer_for name make g).0)
        × Same (informer_for name make f).1 (informer_for name make g).1
  unfolding informer_for
  informer_for-Same f g name make s =
      let made = make f.client (or_default f.default_resync (lookup name f.custom_resync)) in
      let made' = make g.client (or_default g.default_resync (lookup name g.custom_resync)) in
      let same : made ≡ made' = rw (s.client, s.default_resync, s.custom_resync name) refl in
      (
        ground (arith, s.informers name, same),
        record {
          client = ground (arith, s.client);
          namespace = ground (arith, s.namespace);
          tweak_list_options = ground (arith, s.tweak_list_options);
          default_resync = ground (arith, s.default_resync);
          custom_resync = λ other. ground (arith, s.custom_resync other);
          informers = λ other. ground (
            arith,
            s.informers name,
            s.informers other,
            same,
            lookup-insert name other made f.informers,
            lookup-insert name other made' g.informers,
          );
          started = λ other. ground (arith, s.started other);
          wg = ground (arith, s.wg);
          shutting_down = ground (arith, s.shutting_down);
          launched = λ other. ground (arith, s.launched other);
        },
      )

  -- The results of one operation on the same state.
  abbrev Agree : Option (Factory Clients I Tweak) → Option (Factory Clients I Tweak) → Type 0
  Agree none none = Unit {0}
  Agree (some f) (some g) = Same f g
  Agree _ _ = ⊥

  with_wg :
      (m n : ℕ) (f g : Factory Clients I Tweak)
      → m ≡ n
      → Same f g
      → Same (record f { wg = m }) (record g { wg = n })
  with_wg m n f g e s = record {
    client = s.client;
    namespace = s.namespace;
    tweak_list_options = s.tweak_list_options;
    default_resync = s.default_resync;
    custom_resync = s.custom_resync;
    informers = s.informers;
    started = s.started;
    wg = e;
    shutting_down = s.shutting_down;
    launched = s.launched;
  }

  step-Agree :
      (f g : Factory Clients I Tweak) (e : Event Clients I) → Same f g → Agree (step f e) (step g e)
  unfolding step begin_shutdown informer_ends
  step-Agree f g (asked name make) s = (informer_for-Same f g name make s).1
  step-Agree f g started s = start-Same f g s
  step-Agree f g shut_down s = record {
    client = s.client;
    namespace = s.namespace;
    tweak_list_options = s.tweak_list_options;
    default_resync = s.default_resync;
    custom_resync = s.custom_resync;
    informers = s.informers;
    started = s.started;
    wg = s.wg;
    shutting_down = refl;
    launched = s.launched;
  }
  step-Agree f g ended s = elim (Bool-cases (nat_eq g.wg 0)) [
    | inl none_left ↦ rw (s.wg, none_left) tt
    | inr some_left ↦ rw (s.wg, some_left) (with_wg (g.wg - 1) (g.wg - 1) f g refl s)
  ]

  -- A result up to the order of its maps.
  abbrev pub unordered : Option (Factory Clients I Tweak) → Option (Quot (Same))
  unordered = Option.map Quot.mk

  Agree-unordered : (x y : Option (Factory Clients I Tweak)) → Agree x y → unordered x ≡ unordered y
  Agree-unordered none none h = refl
  Agree-unordered (some f) (some g) s = ap some (Quot.sound s)
  Agree-unordered none (some g) h = absurd h
  Agree-unordered (some f) none h = absurd h

  next-unordered :
      (events : List (Event Clients I))
      → ((f g : Factory Clients I Tweak)
          → Same f g
          → unordered (run f events) ≡ unordered (run g events))
      → (x y : Option (Factory Clients I Tweak)) → Agree x y
      → unordered (elim x [ none ↦ none | some t ↦ run t events ])
        ≡ unordered (elim y [ none ↦ none | some t ↦ run t events ])
  next-unordered events later none none h = refl
  next-unordered events later (some t) (some u) h = later t u h
  next-unordered events later none (some u) h = absurd h
  next-unordered events later (some t) none h = absurd h

  -- What a factory comes to depends only on the entries of its maps: from states with the same entries,
  -- whatever their order, each run ends in the same state up to order, or in neither.
  pub run-unordered :
      (f g : Factory Clients I Tweak) (events : List (Event Clients I))
      → Same f g
      → unordered (run f events) ≡ unordered (run g events)
  unfolding run
  run-unordered f g [] s = ap some (Quot.sound s)
  run-unordered f g (e ∷ events) s =
      next-unordered events (λ t u. run-unordered t u events) (step f e) (step g e)
        (step-Agree f g e s)
