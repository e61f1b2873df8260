-- ===== src/Clientset/Made/Laws.antt =====
-- When the fake clientset is made.
use cel_admission_webhook.Common.{◌≡◌, refl, ap, String, ◌⊎◌, inl, inr, List, [], ◌∷◌, ◌++◌}
use cel_admission_webhook.Common.Errors.{Error, Result, ok, err, Result-cases}
use cel_admission_webhook.Kinds.{GroupVersionResource}
use cel_admission_webhook.Clientset.Made.{
  Outcome, returned, panicked, TrackerCalls, add_each, new_simple_clientset, after_adding, Made,
  Reaction, handled, unhandled, watch_reaction,
}

module _ {Object Tracker React Watch : Type 0}
    (calls : TrackerCalls Object Tracker React Watch) where
  -- Objects that a tracker takes one after another.
  abbrev pub Takes : List Object → Tracker → Tracker → Type 0
  Takes [] o q = o ≡ q
  Takes (obj ∷ objects) o q = (p : Tracker) × (calls.add obj o ≡ ok p) × Takes objects p q

  -- The first object that is refused, and its error.
  abbrev pub Refuses : List Object → Tracker → Error → Type 0
  Refuses objects o e =
      (before : List Object) × (obj : Object) × (rest : List Object) × (p : Tracker) × (objects
        ≡ before ++ obj ∷ rest)
      × Takes before o p
      × (calls.add obj p ≡ err e)

  -- What the loop does, for what it is asked to do.
  abbrev pub Runs : List Object → Tracker → Outcome Tracker → Type 0
  Runs objects o (returned q) = Takes objects o q
  Runs objects o (panicked e) = Refuses objects o e

  takes_first :
      (obj : Object) (objects : List Object) (o p : Tracker) (outcome : Outcome Tracker)
      → calls.add obj o ≡ ok p
      → Runs objects p outcome
      → Runs (obj ∷ objects) o outcome
  takes_first obj objects o p (returned q) h runs = (p, h, runs)
  takes_first obj objects o p (panicked e) h (before, bad, rest, q, same, takes, refused) =
      (obj ∷ before, bad, rest, q, ap (λ tail. obj ∷ tail) same, (p, h, takes), refused)

  add_each-first :
      (obj : Object) (objects : List Object) (o : Tracker) (r : Result Tracker)
      → calls.add obj o ≡ r
      → ((p : Tracker) → Runs objects p (add_each calls objects p))
      → Runs (obj ∷ objects) o (elim r [ err e ↦ panicked e | ok p ↦ add_each calls objects p ])
  add_each-first obj objects o (ok p) h rest =
      takes_first obj objects o p (add_each calls objects p) h (rest p)
  add_each-first obj objects o (err e) h rest = ([], obj, objects, o, refl, refl, h)

  add_each-Runs : (objects : List Object) (o : Tracker) → Runs objects o (add_each calls objects o)
  unfolding add_each
  add_each-Runs [] o = refl
  add_each-Runs (obj ∷ objects) o =
      add_each-first obj objects o (calls.add obj o) refl (λ p. add_each-Runs objects p)

  -- A watch is answered from a tracker: with what it watches, or left to the next reactor with its error.
  abbrev pub Watches : Tracker → (GroupVersionResource → String → Reaction Watch) → Type 0
  Watches o react =
      (gvr : GroupVersionResource) (ns : String)
      → ((w : Watch) × (calls.watch gvr ns o ≡ ok w) × (react gvr ns ≡ handled w))
        ⊎ ((e : Error) × (calls.watch gvr ns o ≡ err e) × (react gvr ns ≡ unhandled e))

  watch_reaction-Watches : (o : Tracker) → Watches o (watch_reaction calls o)
  unfolding watch_reaction
  watch_reaction-Watches o gvr ns = elim (Result-cases (calls.watch gvr ns o)) [
    | inl (w, found) ↦ inl (w, found, rw found refl)
    | inr (e, failed) ↦ inr (e, failed, rw failed refl)
  ]

  -- What is made: a clientset whose one reactor reacts from the tracker of all objects to every verb and
  -- resource, and whose one watch reactor watches that tracker for every resource; or the panic with the
  -- error of the first object that the tracker refuses.
  abbrev pub IsMade : List Object → Outcome (Made calls) → Type 0
  IsMade objects (returned cs) =
      (o : Tracker) × (react : GroupVersionResource → String → Reaction Watch) × Takes objects
        calls.new_object_tracker o
      × (cs.tracker ≡ o)
      × (cs.reactors ≡ ("*", "*", calls.object_reaction o) ∷ [])
      × (cs.watch_reactors ≡ ("*", react) ∷ [])
      × Watches o react
  IsMade objects (panicked e) = Refuses objects calls.new_object_tracker e

  after_adding-IsMade :
      (objects : List Object) (outcome : Outcome Tracker)
      → Runs objects calls.new_object_tracker outcome
      → IsMade objects (after_adding calls outcome)
  after_adding-IsMade objects (returned o) runs =
      (o, watch_reaction calls o, runs, refl, refl, refl, watch_reaction-Watches o)
  after_adding-IsMade objects (panicked e) runs = runs

  -- The fake clientset is made of a tracker that has taken all the objects in their order: its one
  -- reactor, for every verb and resource, is that tracker's, and its one watch reactor answers what the
  -- tracker watches, or leaves an error to the next reactor. Or the call panics with the error of the first object that the
  -- tracker refuses, after those before it were taken.
  pub new_simple_clientset-IsMade :
      (objects : List Object) → IsMade objects (new_simple_clientset calls objects)
  unfolding new_simple_clientset
  new_simple_clientset-IsMade objects =
      after_adding-IsMade objects (add_each calls objects calls.new_object_tracker)
        (add_each-Runs objects calls.new_object_tracker)
