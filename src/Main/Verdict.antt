-- ===== src/Main/Verdict.antt =====
-- The verdict of the webhook that `main` puts together.
use cel_admission_webhook.Common.{
  String, ◌≡◌, ◌↔◌, ◌⊎◌, inl, inr, refl, ap, true, false, Option, none, some, arith, Bool-cases,
}
use cel_admission_webhook.Common.Errors.{Error}
use cel_admission_webhook.Validator.{and_then, any_handles, validate_each, new_multi}
use cel_admission_webhook.Plugin
use cel_admission_webhook.Plugin.{is_policy_resource, handles, synced_condition, plugin}
use cel_admission_webhook.Webhook.Review.{ReviewAnswer}
use cel_admission_webhook.Webhook.Handler.{
  Backend, AdmissionRequest, Attributes, pass, decode_raw, attributes, review,
}
use cel_admission_webhook.Webhook.Handler.Verdict.{review-allowed_iff}
use cel_admission_webhook.Main.{
  Evaluator, plugin_host, validators, webhook_validator, webhook_backend,
}

module _ {Object : Type 0} (ev : Evaluator Object) where
  and_then-nil : {S : Type 0} (r : Option Error × S) → (and_then r (λ t. (none, t))) ≡ r
  and_then-nil (none, t) = refl
  and_then-nil (some e, t) = refl

  webhook_validator-validate :
      (a : Attributes Object) (s : ev.State)
      → (webhook_validator ev).validate a s ≡ Plugin.validate (plugin_host ev) a s
  unfolding webhook_validator new_multi validators validate_each plugin handles
  webhook_validator-validate a s = and_then-nil (Plugin.validate (plugin_host ev) a s)

  pub webhook_validator-handles :
      (operation : String) → (webhook_validator ev).handles operation ≡ true
  unfolding webhook_validator new_multi validators any_handles plugin handles
  webhook_validator-handles operation = refl

  -- When the plugin lets a request through.
  abbrev pub IsAccepted : Attributes Object → ev.State → Type 0
  IsAccepted a s =
      (is_policy_resource a.resource ≡ true)
      ⊎ ((u : ev.State) × (t : ev.State) × (ev.poll_immediate 100 1000
              (synced_condition (plugin_host ev)) s
            ≡ (none, u))
          × (ev.validate a u ≡ (none, t)))

  policy_lem :
      (a : Attributes Object) (s : ev.State)
      → is_policy_resource a.resource ≡ true
      → (Plugin.validate (plugin_host ev) a s).0 ≡ none
  unfolding Plugin.validate
  policy_lem a s policy = rw policy refl

  none_with : {S : Type 0} (r : Option Error × S) → r.0 ≡ none → r ≡ (none, r.1)
  none_with (none, t) h = refl
  none_with (some e, t) h = cc

  -- A request that is no policy has the evaluator's verdict after the wait.
  polled-IsAccepted :
      (a : Attributes Object) (s : ev.State) (r : Option Error × ev.State)
      → is_policy_resource a.resource ≡ false
      → ev.poll_immediate 100 1000 (synced_condition (plugin_host ev)) s ≡ r
      → ((Plugin.validate (plugin_host ev) a s).0 ≡ none) ↔ IsAccepted a s
  unfolding Plugin.validate
  polled-IsAccepted a s (none, u) other polled = (
    λ h.
        let given : (ev.validate a u).0 ≡ none = rw (other, polled) at h in
        inr (u, (ev.validate a u).1, polled, none_with (ev.validate a u) given),
    λ k. elim k [
      | inl policy ↦ cc
      | inr (v, t, polled', fine) ↦
          let same : v ≡ u = ground arith in rw (other, polled) (ap (λ r. r.0) (rw same at fine))
    ],
  )
  polled-IsAccepted a s (some e, u) other polled = (
    λ h. cc (rw (other, polled) at h),
    λ k. elim k [ inl policy ↦ cc | inr (v, t, polled', fine) ↦ cc ],
  )

  plugin-IsAccepted :
      (a : Attributes Object) (s : ev.State)
      → ((Plugin.validate (plugin_host ev) a s).0 ≡ none) ↔ IsAccepted a s
  plugin-IsAccepted a s = elim (Bool-cases (is_policy_resource a.resource)) [
    | inl policy ↦ (λ _. inl policy, λ _. policy_lem a s policy)
    | inr other ↦ polled-IsAccepted a s _ other refl
  ]

  pub webhook-IsAccepted :
      (a : Attributes Object) (s : ev.State)
      → (((webhook_validator ev).validate a s).0 ≡ none) ↔ IsAccepted a s
  webhook-IsAccepted a s = rw (webhook_validator-validate a s) (plugin-IsAccepted a s)

-- The webhook that `main` puts together allows a request that it answers exactly when both objects
-- decode and the request is about the policies or bindings themselves, or the wait for the
-- evaluator's caches ends without an error and the evaluator then has no error.
pub main_review-allowed_iff :
    (b : Backend) (ev : Evaluator b.Object) (s : ev.State) (a : AdmissionRequest)
    (answer : ReviewAnswer)
    → review (webhook_backend b ev s) a ≡ pass answer
    → (answer.allowed ≡ true) ↔ (
        (old : Option b.Object) × (new : Option b.Object) × (decode_raw b a.old_object_raw a.kind
          ≡ pass old)
        × (decode_raw b a.object_raw a.kind ≡ pass new)
        × IsAccepted ev (attributes b a old new) s)
unfolding webhook_backend decode_raw attributes
main_review-allowed_iff b ev s a answer h =
    let (_, allowed) = review-allowed_iff (webhook_backend b ev s) a answer h in
    (
      λ given. elim (allowed.0 given) [
        | inl unhandled ↦ cc (webhook_validator-handles ev a.operation, unhandled)
        | inr (old, new, d1, d2, fine) ↦
            (old, new, d1, d2, (webhook-IsAccepted ev (attributes b a old new) s).0 fine)
      ],
      λ (old, new, d1, d2, accepted).
          allowed.1
            (inr (old, new, d1, d2, (webhook-IsAccepted ev (attributes b a old new) s).1 accepted)),
    )
