-- ===== src/Factory/Groups/Typing.antt =====
-- The type of the objects of an informer.
use cel_admission_webhook.Common.{
  ℕ, ◌≡◌, refl, sym, ap, subst, String, Option, some, none, List, [], ◌∷◌, Bool-cases, Option-cases,
  inl, inr, All, arith, if◌then◌else◌, eq_iff,
}
use mathlib.Core.Option
use cel_admission_webhook.Common.Errors.{ok}
use cel_admission_webhook.Common.Dict.{Dict, lookup, insert, lookup-insert}
use cel_admission_webhook.Kinds.{GroupVersionResource}
use cel_admission_webhook.Factory.{informer_for, begin_shutdown, informer_ends}
use cel_admission_webhook.Factory.Laws.{start-same}
use cel_admission_webhook.Factory.History.{Event, asked, started, shut_down, ended, step, run}
use cel_admission_webhook.Factory.Groups.{
  Informer, of_policies, of_bindings, Typed, ApiFactory, policy_informer, binding_informer,
  for_resource, as_ok, new_policy_informer, new_binding_informer,
}
use cel_admission_webhook.Factory.Groups.Laws.{is_policies, is_bindings, as_ok-injective}

-- The type of the objects of a resource.
abbrev pub type_of : GroupVersionResource → Option String
type_of r =
    if is_policies r
    then some "ValidatingAdmissionPolicy"
    else if is_bindings r
    then some "ValidatingAdmissionPolicyBinding"
    else none

module _ {O S P B : Type 0} where
  abbrev pub type_name : Informer O S P B → String
  type_name (of_policies lw resync) = "ValidatingAdmissionPolicy"
  type_name (of_bindings lw resync) = "ValidatingAdmissionPolicyBinding"

  -- An informer that is kept for a type is of that type.
  abbrev pub EachTyped : Dict (Informer O S P B) → Type 0
  EachTyped informers =
      (name : String) (informer : Informer O S P B)
      → lookup name informers ≡ some informer
      → type_name informer ≡ name

  abbrev pub WellTyped : ApiFactory O S P B → Type 0
  WellTyped f = EachTyped f.informers

  -- What is asked for a type makes informers of it.
  abbrev pub Asks : Event (Typed O S P B) (Informer O S P B) → Type 0
  Asks (asked name new_informer) =
      (client : Typed O S P B) (resync : ℕ) → type_name (new_informer client resync) ≡ name
  Asks started = Unit
  Asks shut_down = Unit
  Asks ended = Unit

  insert-EachTyped :
      (name : String) (informer : Informer O S P B) (informers : Dict (Informer O S P B))
      → type_name informer ≡ name
      → EachTyped informers
      → EachTyped (insert name informer informers)
  insert-EachTyped name informer informers typed w other found h =
      ground (arith, lookup-insert name other informer informers, eq_iff name other, w other found)

  informer_for-typed :
      (name : String) (new_informer : Typed O S P B → ℕ → Informer O S P B) (f : ApiFactory O S P B)
      → ((client : Typed O S P B) (resync : ℕ) → type_name (new_informer client resync) ≡ name)
      → WellTyped f
      → (type_name (informer_for name new_informer f).0 ≡ name)
        × WellTyped (informer_for name new_informer f).1
  unfolding informer_for
  informer_for-typed name new_informer f makes w = elim (Option-cases (lookup name f.informers)) [
    | inl missing ↦
        rw (missing, informer_for) (makes _ _, insert-EachTyped name _ f.informers (makes _ _) w)
    | inr (informer, found) ↦ rw (found, informer_for) (w name informer found, w)
  ]

  step-WellTyped :
      (f g : ApiFactory O S P B) (e : Event (Typed O S P B) (Informer O S P B))
      → step f e ≡ some g
      → Asks e
      → WellTyped f
      → WellTyped g
  unfolding step informer_ends begin_shutdown
  step-WellTyped f g (asked name new_informer) h asks w =
      subst WellTyped (Option.some-injective _ _ h)
        (informer_for-typed name new_informer f asks w).1
  step-WellTyped f g started h asks w =
      subst WellTyped (Option.some-injective _ _ h) (subst EachTyped (sym (start-same f).0) w)
  step-WellTyped f g shut_down h asks w = subst WellTyped (Option.some-injective _ _ h) w
  step-WellTyped f g ended h asks w = subst EachTyped (ground (arith, h)) w

  run-WellTyped :
      (f g : ApiFactory O S P B) (events : List (Event (Typed O S P B) (Informer O S P B)))
      → run f events ≡ some g
      → All Asks events
      → WellTyped f
      → WellTyped g
  unfolding run
  run-WellTyped f g [] h asks w = subst WellTyped (Option.some-injective _ _ h) w
  run-WellTyped f g (e ∷ events) h (ask, asks) w = elim (Option-cases (step f e)) [
    | inl stuck ↦ cc (rw (stuck, run) at h)
    | inr (u, moved) ↦
        run-WellTyped u g events (rw (moved, run) at h) asks (step-WellTyped f u e moved ask w)
  ]

  given-type :
      (name : String) (new_informer : Typed O S P B → ℕ → Informer O S P B)
      (f g : ApiFactory O S P B) (informer : Informer O S P B)
      → as_ok (informer_for name new_informer f) ≡ (ok informer, g)
      → ((client : Typed O S P B) (resync : ℕ) → type_name (new_informer client resync) ≡ name)
      → WellTyped f
      → type_name informer ≡ name
  given-type name new_informer f g informer given makes w =
      let same = as_ok-injective (informer_for name new_informer f) informer g given in
      subst (λ x. type_name x ≡ name) (ap (λ x. x.0) same)
        (informer_for-typed name new_informer f makes w).0

  -- However a factory that had no informer was asked, started and shut down, an informer that
  -- ForResource gives out is of the type of the resource, if each type was asked for only with functions
  -- that make informers of it.
  pub for_resource-type :
      (r : GroupVersionResource) (f g h : ApiFactory O S P B) (informer : Informer O S P B)
      (events : List (Event (Typed O S P B) (Informer O S P B)))
      → f.informers ≡ []
      → run f events ≡ some g
      → All Asks events
      → for_resource r g ≡ (ok informer, h)
      → type_of r ≡ some (type_name informer)
  unfolding for_resource policy_informer binding_informer new_policy_informer new_binding_informer
      lookup
  for_resource-type r f g h informer events fresh ran asks given =
      let w = run-WellTyped f g events ran asks (λ name i found. cc (rw fresh at found)) in
      elim (Bool-cases (is_policies r)) [
        | inl policies ↦ rw policies (
            ap some (
              sym (
                given-type "ValidatingAdmissionPolicy" _ g h informer (rw policies at given)
                  (λ c n. refl) w)))
        | inr other ↦ elim (Bool-cases (is_bindings r)) [
          | inl bindings ↦
              rw (other, bindings)
                (ap some (
                  sym (
                    given-type "ValidatingAdmissionPolicyBinding" _ g h informer
                      (rw (other, bindings) at given) (λ c n. refl) w)))
          | inr neither ↦ absurd (cc (rw (other, neither) at given))
        ]
      ]
