-- ===== src/Validator/Laws.antt =====
-- A list of validators against its parts.
use cel_admission_webhook.Common.{
  String, ◌≡◌, refl, sym, ap, ◌∙◌, ◌↔◌, ◌⊎◌, inl, inr, true, false, ◌||◌, Option, none, some, List,
  [], ◌∷◌, ◌++◌, arith, subst, Bool-cases,
}
use cel_admission_webhook.Common.Errors.{Error, outcome-cases}
use cel_admission_webhook.Validator.{Validator, any_handles, and_then, validate_each, new_multi}

and_then_assoc :
    {S : Type 0} (r : Option Error × S) (f g h : S → Option Error × S)
    → ((t : S) → f t ≡ and_then (g t) h)
    → and_then r f ≡ and_then (and_then r g) h
and_then_assoc (none, t) f g h e = e t
and_then_assoc (some x, t) f g h e = refl

module _ {Attributes S : Type 0} (get_operation : Attributes → String) where
  any_handles-append :
      (vs ws : List (Validator Attributes S)) (operation : String)
      → any_handles get_operation (vs ++ ws) operation
        ≡ (any_handles get_operation vs operation || any_handles get_operation ws operation)
  unfolding any_handles
  any_handles-append [] ws operation = refl
  any_handles-append (v ∷ vs) ws operation = ground (arith, any_handles-append vs ws operation)

  validate_each-append :
      (vs ws : List (Validator Attributes S)) (a : Attributes) (s : S)
      → validate_each get_operation (vs ++ ws) a s
        ≡ and_then (validate_each get_operation vs a s) (validate_each get_operation ws a)
  unfolding validate_each
  validate_each-append [] ws a s = refl
  validate_each-append (v ∷ vs) ws a s = elim (Bool-cases (v.handles (get_operation a))) [
    | inl yes' ↦
        rw yes' (and_then_assoc (v.validate a s) _ _ _ (λ t. validate_each-append vs ws a t))
    | inr no' ↦ rw no' (validate_each-append vs ws a s)
  ]

  unhandled :
      (vs : List (Validator Attributes S)) (a : Attributes) (s : S)
      → any_handles get_operation vs (get_operation a) ≡ false
      → validate_each get_operation vs a s ≡ (none, s)
  unfolding any_handles validate_each
  unhandled [] a s h = refl
  unhandled (v ∷ vs) a s h = ground (arith, unhandled vs a s)

  -- A multi validator within another is its list in place: the flat list handles the same
  -- operations, and gives the same verdict and the same effects on every input.
  pub new_multi-nested :
      (vs ws : List (Validator Attributes S)) (operation : String) (a : Attributes) (s : S)
      → (any_handles get_operation (new_multi get_operation vs ∷ ws) operation
          ≡ any_handles get_operation (vs ++ ws) operation)
        × (validate_each get_operation (new_multi get_operation vs ∷ ws) a s
            ≡ validate_each get_operation (vs ++ ws) a s)
  unfolding any_handles validate_each new_multi
  new_multi-nested vs ws operation a s = (
    rw (any_handles-append vs ws operation) (ground arith),
    elim (Bool-cases (any_handles get_operation vs (get_operation a))) [
      | inl yes' ↦ rw yes' (sym (validate_each-append vs ws a s))
      | inr no' ↦ rw no' (
          ap (λ r. and_then r (validate_each get_operation ws a)) (sym (unhandled vs a s no'))
          ∙ sym (validate_each-append vs ws a s))
    ],
  )

-- The validators of a list that handle the operation accept, one after the other, from `s` to `t`.
pub data Passes {Attributes S : Type 0} (get_operation : Attributes → String) (a : Attributes)
    : List (Validator Attributes S) → S → S → Type 0 where
  at_end : {s : S} → Passes get_operation a [] s s
  skips :
      {v : Validator Attributes S} {vs : List (Validator Attributes S)} {s t : S}
      → v.handles (get_operation a) ≡ false
      → Passes get_operation a vs s t
      → Passes get_operation a (v ∷ vs) s t
  accepts :
      {v : Validator Attributes S} {vs : List (Validator Attributes S)} {s t u : S}
      → v.handles (get_operation a) ≡ true
      → v.validate a s ≡ (none, u)
      → Passes get_operation a vs u t
      → Passes get_operation a (v ∷ vs) s t

module _ {Attributes S : Type 0} (get_operation : Attributes → String) (a : Attributes) where
  rejects_sound :
      (v : Validator Attributes S) (ys : List (Validator Attributes S)) (u t : S) (e : Error)
      → v.handles (get_operation a) ≡ true
      → v.validate a u ≡ (some e, t)
      → validate_each get_operation (v ∷ ys) a u ≡ (some e, t)
  unfolding validate_each
  rejects_sound v ys u t e h r = rw (h, r)

  Passes-sound :
      {vs : List (Validator Attributes S)} {s t : S}
      → Passes get_operation a vs s t
      → validate_each get_operation vs a s ≡ (none, t)
  unfolding validate_each
  Passes-sound at_end = refl
  Passes-sound (skips h p) = rw h (Passes-sound p)
  Passes-sound (accepts h e p) = rw (h, e) (Passes-sound p)

  -- The first validator that rejects, behind validators that pass.
  abbrev pub FirstRejects : List (Validator Attributes S) → S → Error → S → Type 0
  FirstRejects vs s e t =
      (xs : List (Validator Attributes S)) × (v : Validator Attributes S) × (ys : List
        (Validator Attributes S))
      × (u : S) × (vs ≡ xs ++ v ∷ ys)
      × Passes get_operation a xs s u
      × (v.handles (get_operation a) ≡ true)
      × (v.validate a u ≡ (some e, t))

  -- Every run ends one way or the other.
  validate_each-cases :
      (vs : List (Validator Attributes S)) (s : S)
      → ((t : S) × (validate_each get_operation vs a s ≡ (none, t)) × Passes get_operation a vs s t)
        ⊎ ((e : Error) × (t : S) × (validate_each get_operation vs a s ≡ (some e, t))
            × FirstRejects vs s e t)
  unfolding validate_each
  validate_each-cases [] s = inl (s, refl, at_end)
  validate_each-cases (v ∷ vs) s = elim (Bool-cases (v.handles (get_operation a))) [
    | inr no' ↦ elim (validate_each-cases vs s) [
      | inl (t, e, p) ↦ inl (t, rw no' e, skips no' p)
      | inr (x, t, e, (xs, w, ys, u, split, p, h, r)) ↦
          inr (x, t, rw no' e, (v ∷ xs, w, ys, u, ap (◌∷◌ v) split, skips no' p, h, r))
    ]
    | inl yes' ↦ elim (outcome-cases (v.validate a s)) [
      | inl (u, passed) ↦ elim (validate_each-cases vs u) [
        | inl (t, e, p) ↦ inl (t, rw (yes', passed) e, accepts yes' passed p)
        | inr (x, t, e, (xs, w, ys, u', split, p, h, r)) ↦ inr (
          x,
          t,
          rw (yes', passed) e,
          (v ∷ xs, w, ys, u', ap (◌∷◌ v) split, accepts yes' passed p, h, r),
        )
      ]
      | inr (x, t, failed) ↦
          inr (x, t, rw (yes', failed) refl, ([], v, vs, s, refl, at_end, yes', failed))
    ]
  ]

  FirstRejects-sound :
      (vs : List (Validator Attributes S)) (s t : S) (e : Error)
      → FirstRejects vs s e t
      → validate_each get_operation vs a s ≡ (some e, t)
  FirstRejects-sound vs s t e (xs, v, ys, u, split, p, h, r) = rw split (
      validate_each-append get_operation xs (v ∷ ys) a s
      ∙ rw (Passes-sound p) (rejects_sound v ys u t e h r))

  -- The verdict of a list is an admission exactly when each validator that handles the operation
  -- accepts, in order, each from the state that the one before left; it is an error exactly when one
  -- that handles the operation gives it and those before it accept, and none runs after it.
  pub validate_each_iff :
      (vs : List (Validator Attributes S)) (s t : S)
      → ((validate_each get_operation vs a s ≡ (none, t)) ↔ Passes get_operation a vs s t)
        × ((e : Error) → (validate_each get_operation vs a s ≡ (some e, t)) ↔ FirstRejects vs s e t)
  validate_each_iff vs s t = elim (validate_each-cases vs s) [
    | inl (u, e, p) ↦ (
      ((λ h. subst (λ w. Passes get_operation a vs s w) (cc) p), Passes-sound),
      λ x. ((λ h. absurd (cc)), FirstRejects-sound vs s t x),
    )
    | inr (y, u, e, r) ↦ (
      ((λ h. absurd (cc)), Passes-sound),
      λ x. (
        (λ h.
            let same : y ≡ x = cc in
            let final : u ≡ t = cc in
            subst (λ w. FirstRejects vs s w t) same (subst (λ w. FirstRejects vs s y w) final r)),
        FirstRejects-sound vs s t x,
      ),
    )
  ]
