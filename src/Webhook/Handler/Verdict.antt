-- ===== src/Webhook/Handler/Verdict.antt =====
-- The verdict of a review against the validator's.
use cel_admission_webhook.Common.{
  ℕ, ◌≡◌, ◌↔◌, ◌⊎◌, inl, inr, true, false, Option, none, arith, Bool-cases, if◌then◌else◌,
}
use cel_admission_webhook.Common.Errors.{Error}
use cel_admission_webhook.Webhook.Review.{ReviewAnswer, review_response}
use cel_admission_webhook.Webhook.Handler.{
  Backend, AdmissionRequest, pass, failure, decode_raw, attributes, validated, review,
}
use cel_admission_webhook.Webhook.Handler.Decode.{>>=-eq-pass, decode_raw-failure}

module _ (b : Backend) where
  open b use {Object, handles, validate}

  -- The verdict exists exactly when both texts decode, and it is the validator's.
  pub validated_iff :
      (a : AdmissionRequest) (verdict : Option Error)
      → (validated b a ≡ pass verdict) ↔ (
          (old : Option Object) × (new : Option Object) × (decode_raw b a.old_object_raw a.kind
            ≡ pass old)
          × (decode_raw b a.object_raw a.kind ≡ pass new)
          × (validate (attributes b a old new) ≡ verdict))
  unfolding validated
  validated_iff a verdict = (
    λ h.
        let (old, e1, h1) = >>=-eq-pass (decode_raw b a.old_object_raw a.kind) _ h in
        let (new, e2, h2) = >>=-eq-pass (decode_raw b a.object_raw a.kind) _ h1 in
        (old, new, e1, e2, ground arith),
    λ (old, new, e1, e2, e3). rw (e1, e2, e3),
  )

  pub review-pass :
      (a : AdmissionRequest) (answer : ReviewAnswer)
      → review b a ≡ pass answer
      → (verdict : Option Error) × ((if handles a.operation then validated b a else pass none)
          ≡ pass verdict)
        × (answer ≡ review_response a.uid verdict)
  unfolding review
  review-pass a answer h =
      let (verdict, e, h') =
        >>=-eq-pass (if handles a.operation then validated b a else pass none) _ h in
      (verdict, e, ground arith)

  -- A review that is answered carries the request's uid, and it allows the request exactly when the
  -- validator does not handle the operation, or both objects decode and the validator has no error.
  pub review-allowed_iff :
      (a : AdmissionRequest) (answer : ReviewAnswer)
      → review b a ≡ pass answer
      → (answer.uid ≡ a.uid)
        × ((answer.allowed ≡ true) ↔ (
            (handles a.operation ≡ false)
            ⊎ ((old : Option Object) × (new : Option Object) × (decode_raw b a.old_object_raw a.kind
                  ≡ pass old)
                × (decode_raw b a.object_raw a.kind ≡ pass new)
                × (validate (attributes b a old new) ≡ none))))
  unfolding review review_response
  review-allowed_iff a answer h =
      let (verdict, e, same) = review-pass a answer h in
      elim (Bool-cases (handles a.operation)) [
        | inl yes' ↦
            let given : validated b a ≡ pass verdict = rw yes' at e in
            (
              ground arith,
              (
                λ al.
                    let clear : verdict ≡ none = ground arith in
                    inr ((validated_iff a none).0 (rw clear at given)),
                λ s. elim s [
                  | inl f ↦ cc
                  | inr w ↦ let clear = (validated_iff a none).1 w in ground arith
                ],
              ),
            )
        | inr no' ↦ (ground arith, (λ _. inl no', λ _. ground arith))
      ]

  validated-failure :
      (a : AdmissionRequest) (e : Error) (code : ℕ)
      → validated b a ≡ failure e code
      → (code ≡ 400) ⊎ (code ≡ 500)
  unfolding validated
  validated-failure a e code h = ground (
    arith,
    decode_raw-failure b a.old_object_raw a.kind e code,
    decode_raw-failure b a.object_raw a.kind e code,
  )

  pub review-failure :
      (a : AdmissionRequest) (e : Error) (code : ℕ)
      → review b a ≡ failure e code
      → (code ≡ 400) ⊎ (code ≡ 500)
  unfolding review
  review-failure a e code h = ground (arith, validated-failure a e code)
