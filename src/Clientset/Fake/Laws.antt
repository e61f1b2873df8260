-- ===== src/Clientset/Fake/Laws.antt =====
-- What the fake clients list.
use cel_admission_webhook.Common.{
  ◌≡◌, refl, ap, sym, ◌∙◌, subst, Bool, true, false, Option, some, none, List, [], ◌∷◌, ◌↔◌,
  Bool-cases, inl, inr,
}
use cel_admission_webhook.Common.Errors.{Error}
use cel_admission_webhook.Clientset.{ListOptions, list, plain}
use cel_admission_webhook.Clientset.Fake.{
  FakeHost, FakeList, or_everything, root_list, fake_policy, fake_binding, select_items, matching,
  policy_action, binding_action, policies_resource, policies_kind, bindings_resource, bindings_kind,
}

-- The items on which a test is true, in their order.
pub data Selected {A : Type 0} (matches : A → Bool) : List A → List A → Type 0 where
  at_end : Selected matches [] []
  keep :
      {item : A} {items kept : List A}
      → matches item ≡ true
      → Selected matches items kept
      → Selected matches (item ∷ items) (item ∷ kept)
  skip :
      {item : A} {items kept : List A}
      → matches item ≡ false
      → Selected matches items kept
      → Selected matches (item ∷ items) kept

-- What the tracker lists, and what a fake client answers of it: nil stays nil; a list stays, with its
-- metadata, if there is no selector, and else keeps the items that the selector matches. The error
-- and the tracker's state stay.
pub data Lists {A S : Type 0} (selector : Option (A → Bool))
    : (Option (FakeList A) × Option Error) × S
      → (Option (FakeList A) × Option Error) × S
      → Type 0 where
  nothing : {e : Option Error} {t : S} → Lists selector ((none, e), t) ((none, e), t)
  unselective :
      {l : FakeList A} {e : Option Error} {t : S}
      → selector ≡ none
      → Lists selector ((some l, e), t) ((some l, e), t)
  selective :
      {l r : FakeList A} {e : Option Error} {t : S} {matches : A → Bool}
      → selector ≡ some matches
      → l.list_meta ≡ r.list_meta
      → Selected matches l.items r.items
      → Lists selector ((some l, e), t) ((some r, e), t)

module _ {A : Type 0} where
  Selected-matching :
      {matches : A → Bool} {items kept : List A}
      → Selected matches items kept
      → matching matches items ≡ kept
  unfolding matching
  Selected-matching at_end = refl
  Selected-matching (keep {item} hit all) =
      rw hit (ap (λ rest. item ∷ rest) (Selected-matching all))
  Selected-matching (skip miss all) = rw miss (Selected-matching all)

  matching-Selected :
      (matches : A → Bool) (items : List A) → Selected matches items (matching matches items)
  unfolding matching
  matching-Selected matches [] = at_end
  matching-Selected matches (item ∷ items) = elim (Bool-cases (matches item)) [
    | inl hit ↦ rw hit (keep hit (matching-Selected matches items))
    | inr miss ↦ rw miss (skip miss (matching-Selected matches items))
  ]

  matching-everything : (items : List A) → matching (λ item. true) items ≡ items
  unfolding matching
  matching-everything [] = refl
  matching-everything (item ∷ items) = ap (λ rest. item ∷ rest) (matching-everything items)

  -- The same list with the items that pass a test.
  abbrev with_items : FakeList A → List A → FakeList A
  with_items l items = record { list_meta = l.list_meta; items = items }

  same_list :
      (l r : FakeList A) (items : List A)
      → l.list_meta ≡ r.list_meta
      → items ≡ r.items
      → with_items l items ≡ r
  same_list l r items meta same = rw (meta, same) refl

  module _ {S : Type 0} where
    -- What is listed, for a given selector.
    abbrev filtered :
        Option (A → Bool)
        → (Option (FakeList A) × Option Error) × S
        → (Option (FakeList A) × Option Error) × S
    filtered selector ((none, e), t) = ((none, e), t)
    filtered selector ((some l, e), t) =
        ((some (with_items l (matching (or_everything selector) l.items)), e), t)

    filtered-Lists :
        (selector : Option (A → Bool)) (got : (Option (FakeList A) × Option Error) × S)
        → Lists selector got (filtered selector got)
    filtered-Lists selector ((none, e), t) = nothing
    filtered-Lists none ((some l, e), t) =
        subst (λ items. Lists none ((some l, e), t) ((some (with_items l items), e), t))
          (sym (matching-everything l.items)) (unselective refl)
    filtered-Lists (some matches) ((some l, e), t) =
        selective refl refl (matching-Selected matches l.items)

    Lists-filtered :
        {selector : Option (A → Bool)} {got answer : (Option (FakeList A) × Option Error) × S}
        → Lists selector got answer
        → filtered selector got ≡ answer
    Lists-filtered nothing = refl
    Lists-filtered (unselective {l} {e} {t} unset) =
        rw unset (ap (λ items. ((some (with_items l items), e), t)) (matching-everything l.items))
    Lists-filtered (selective {l} {r} {e} {t} {matches} given meta all) = rw given (
        ap (λ x. ((some x, e), t))
          (same_list l r (matching matches l.items) meta (Selected-matching all)))

module _ {O S A : Type 0} (host : FakeHost O S A) (opts : ListOptions O) where
  select_items-filtered :
      (got : (Option (FakeList A) × Option Error) × S)
      → select_items host opts got ≡ filtered (host.selector opts) got
  unfolding select_items
  select_items-filtered ((none, e), t) = refl
  select_items-filtered ((some l, e), t) = refl

  select_items_iff :
      (got answer : (Option (FakeList A) × Option Error) × S)
      → (select_items host opts got ≡ answer) ↔ Lists (host.selector opts) got answer
  select_items_iff got answer = (
    (λ same.
        subst (Lists (host.selector opts) got) (sym (select_items-filtered got) ∙ same)
          (filtered-Lists (host.selector opts) got)),
    (λ all. select_items-filtered got ∙ Lists-filtered all),
  )

  -- List of a fake client asks the tracker for the list of its resource and kind with the selectors of the
  -- options, and answers exactly the items of the tracker's list that the label selector of the options
  -- matches, all of them if there is none, in their order and with the list's metadata; nil, the error
  -- and the tracker's state stay as they are. First the policies, then the bindings.
  pub fake_list_iff :
      (s : S) (answer : (Option (FakeList A) × Option Error) × S)
      → ((fake_policy host (plain (list opts)) s ≡ answer)
          ↔ Lists
              (host.selector opts)
              (host.invokes_list
                (root_list policies_resource policies_kind opts.label_selector opts.field_selector)
                s)
              answer)
        × ((fake_binding host (list opts) s ≡ answer)
            ↔ Lists
                (host.selector opts)
                (host.invokes_list
                  (root_list bindings_resource bindings_kind opts.label_selector
                    opts.field_selector)
                  s)
                answer)
  unfolding fake_policy fake_binding policy_action binding_action
  fake_list_iff s answer = (select_items_iff _ answer, select_items_iff _ answer)
