-- ===== src/Factory/Groups/Laws.antt =====
-- The informers that ForResource gives out.
use cel_admission_webhook.Common.{
  ℕ, ◌≡◌, sym, ap, ◌∙◌, subst, String, Bool, some, List, Bool-cases, inl, inr,
}
use cel_admission_webhook.Common.Errors.{ok}
use cel_admission_webhook.Kinds.{GroupVersionResource}
use cel_admission_webhook.Clientset.{scheme_group_version, with_resource}
use cel_admission_webhook.Factory.{informer_for}
use cel_admission_webhook.Factory.History.{Event, run, informer_for-shared}
use cel_admission_webhook.Factory.Groups.{
  Informer, Typed, ApiFactory, policy_informer, binding_informer, for_resource, gvr_eq, as_ok,
}

pub as_ok-injective : {A F : Type 0} (x : A × F) (a : A) (g : F) → as_ok x ≡ (ok a, g) → x ≡ (a, g)
as_ok-injective (b, f) a g h = cc

abbrev pub is_policies : GroupVersionResource → Bool
is_policies r = gvr_eq r (with_resource scheme_group_version "validatingadmissionpolicies")

abbrev pub is_bindings : GroupVersionResource → Bool
is_bindings r = gvr_eq r (with_resource scheme_group_version "validatingadmissionpolicybindings")

module _ {O S P B : Type 0} where
  shared :
      (name : String) (first later : Typed O S P B → ℕ → Informer O S P B)
      (f g h : ApiFactory O S P B) (informer : Informer O S P B)
      (events : List (Event (Typed O S P B) (Informer O S P B)))
      → as_ok (informer_for name first f) ≡ (ok informer, g)
      → run g events ≡ some h
      → as_ok (informer_for name later h) ≡ (ok informer, h)
  shared name first later f g h informer events given ran =
      let same = as_ok-injective (informer_for name first f) informer g given in
      ap as_ok (
        informer_for-shared f h name first later events
          (subst (λ z. run z events ≡ some h) (sym (ap (λ x. x.1) same)) ran)
        ∙ ap (λ x. (x.0, h)) same)

  -- An informer that ForResource has given out for a resource is the one that it gives out for the
  -- resource ever after, whatever was asked of the factory in between; and then it changes nothing.
  pub for_resource-shared :
      (r : GroupVersionResource) (f g h : ApiFactory O S P B) (informer : Informer O S P B)
      (events : List (Event (Typed O S P B) (Informer O S P B)))
      → for_resource r f ≡ (ok informer, g)
      → run g events ≡ some h
      → for_resource r h ≡ (ok informer, h)
  unfolding for_resource policy_informer binding_informer
  for_resource-shared r f g h informer events given ran = elim (Bool-cases (is_policies r)) [
    | inl policies ↦
        rw policies
          (shared "ValidatingAdmissionPolicy" _ _ f g h informer events (rw policies at given) ran)
    | inr other ↦ elim (Bool-cases (is_bindings r)) [
      | inl bindings ↦
          rw (other, bindings)
            (shared "ValidatingAdmissionPolicyBinding" _ _ f g h informer events
              (rw (other, bindings) at given) ran)
      | inr neither ↦ absurd (cc (rw (other, neither) at given))
    ]
  ]
