-- ===== src/Webhook/Handler/Answer.antt =====
-- Which HTTP answer a request gets.
use cel_admission_webhook.Common.{ℕ, ◌≡◌, refl, ◌≢◌, ◌↔◌, ◌⊎◌, inl, inr, some, [], arith, eq_iff}
use cel_admission_webhook.Common.Errors.{Error, ok, err, Result-cases}
use cel_admission_webhook.Webhook.Review.{ReviewAnswer}
use cel_admission_webhook.Webhook.Handler.{
  Backend, Bytes, bytes, HttpRequest, AdmissionRequest, Outcome, pass, failure, http_error,
  parse_request, review, write_review, handle_webhook_validate,
}
use cel_admission_webhook.Webhook.Handler.Verdict.{review-failure}

module _ (b : Backend) where
  open b use {marshal_review}

  -- A request is read exactly from a non-empty body of the JSON type that unmarshals to a review
  -- with a request.
  pub parse_request_iff :
      (r : HttpRequest) (a : AdmissionRequest)
      → (parse_request b r ≡ ok a) ↔ (
          (r.content_type ≡ "application/json")
          × (r.body ≢ [])
          × (b.unmarshal_review r.body ≡ ok (some a)))
  unfolding parse_request
  parse_request_iff r a = ground (arith, eq_iff r.content_type "application/json")

  write_review-status :
      (o : Outcome ReviewAnswer)
      → ((e : Error) (code : ℕ) → o ≡ failure e code → (code ≡ 400) ⊎ (code ≡ 500))
      → (((write_review b o).status ≡ 200)
          ⊎ ((write_review b o).status ≡ 400)
          ⊎ ((write_review b o).status ≡ 500))
        × (((write_review b o).status ≡ 200)
            → (answer : ReviewAnswer) × (out : Bytes) × (o ≡ pass answer)
              × (marshal_review answer ≡ ok out)
              × ((write_review b o).body ≡ bytes out))
        × (((answer : ReviewAnswer) × (out : Bytes) × (o ≡ pass answer)
              × (marshal_review answer ≡ ok out)
              × ((write_review b o).body ≡ bytes out))
            → (write_review b o).status ≡ 200)
  unfolding write_review
  write_review-status (failure e code) codes = (
    ground (arith, codes e code refl),
    (λ h. absurd (ground (arith, codes e code refl))),
    λ w. cc (w.2),
  )
  write_review-status (pass answer) codes = elim (Result-cases (marshal_review answer)) [
    | inl (out, e) ↦ (ground arith, (λ h. (answer, out, refl, e, ground arith)), λ w. ground arith)
    | inr (x, e) ↦ (ground arith, (λ h. ground arith), λ w. ground arith)
  ]

  handle-parsed :
      (req : HttpRequest) (a : AdmissionRequest)
      → parse_request b req ≡ ok a
      → handle_webhook_validate b req ≡ write_review b (review b a)
  unfolding handle_webhook_validate
  handle-parsed req a e = rw (e, handle_webhook_validate)

  handle-refused :
      (req : HttpRequest) (e : Error)
      → parse_request b req ≡ err e
      → handle_webhook_validate b req ≡ http_error e 400
  unfolding handle_webhook_validate
  handle-refused req x e = rw (e, handle_webhook_validate)

  -- The status of every answer is 200, 400 or 500, and 200 is sent exactly when the request parses,
  -- the review passes and its answer marshals; its body is then that text.
  pub handle_webhook_validate-status :
      (req : HttpRequest)
      → (((handle_webhook_validate b req).status ≡ 200)
          ⊎ ((handle_webhook_validate b req).status ≡ 400)
          ⊎ ((handle_webhook_validate b req).status ≡ 500))
        × (((handle_webhook_validate b req).status ≡ 200) ↔ (
            (a : AdmissionRequest) × (answer : ReviewAnswer) × (out : Bytes) × (parse_request b req
              ≡ ok a)
            × (review b a ≡ pass answer)
            × (marshal_review answer ≡ ok out)
            × ((handle_webhook_validate b req).body ≡ bytes out)))
  handle_webhook_validate-status req = elim (Result-cases (parse_request b req)) [
    | inl (a, parsed) ↦
        let (codes, to, from) = write_review-status (review b a) (review-failure b a) in
        rw (handle-parsed req a parsed) (
          codes,
          (
            (λ h.
                let (answer, out, passed, written, body) = to h in
                (a, answer, out, parsed, passed, written, body)),
            λ (a', answer, out, parsed', passed, written, body).
                let same : a ≡ a' = ground arith in
                from (answer, out, rw same passed, written, body),
          ),
        )
    | inr (e, refused) ↦ rw (handle-refused req e refused) (
      ground arith,
      (
        (λ h. absurd (ground arith)),
        λ (a, answer, out, parsed, passed, written, body). absurd (cc),
      ),
    )
  ]
