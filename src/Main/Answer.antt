-- ===== src/Main/Answer.antt =====
-- What an HTTP request to the webhook that `main` puts together is answered.
use cel_admission_webhook.Common.{
  String, some, ◌≡◌, ◌≢◌, ◌↔◌, refl, ap, true, Option, none, [], arith,
}
use cel_admission_webhook.Common.Errors.{Error, ok}
use cel_admission_webhook.Webhook.Review.{ReviewAnswer, review_response}
use cel_admission_webhook.Webhook.Handler.{
  Backend, Bytes, bytes, HttpRequest, AdmissionRequest, pass, decode_raw, attributes, review,
  handle_webhook_validate,
}
use cel_admission_webhook.Webhook.Handler.Verdict.{validated_iff, review-pass}
use cel_admission_webhook.Webhook.Handler.Answer.{parse_request_iff, handle_webhook_validate-status}
use cel_admission_webhook.Main.{Evaluator, webhook_validator, webhook_backend}
use cel_admission_webhook.Main.Verdict.{IsAccepted, webhook-IsAccepted, webhook_validator-handles}

module _ (b : Backend) (ev : Evaluator b.Object) (s : ev.State) where
  -- The verdict on a request whose objects are decoded.
  abbrev verdict : AdmissionRequest → Option b.Object → Option b.Object → Option Error
  verdict a old new = ((webhook_validator ev).validate (attributes b a old new) s).0

  review-pass_iff :
      (a : AdmissionRequest) (answer : ReviewAnswer)
      → (review (webhook_backend b ev s) a ≡ pass answer) ↔ (
          (old : Option b.Object) × (new : Option b.Object) × (decode_raw b a.old_object_raw a.kind
            ≡ pass old)
          × (decode_raw b a.object_raw a.kind ≡ pass new)
          × (answer ≡ review_response a.uid (verdict a old new)))
  unfolding webhook_backend decode_raw attributes review
  review-pass_iff a answer = (
    λ h.
        let (v, given, same) = review-pass (webhook_backend b ev s) a answer h in
        let (old, new, d1, d2, e) =
          (validated_iff (webhook_backend b ev s) a v).0
            (rw (webhook_validator-handles ev a.operation) at given) in
        (old, new, d1, d2, rw e same),
    λ (old, new, d1, d2, same).
        rw
          (
            webhook_validator-handles ev a.operation,
            (validated_iff (webhook_backend b ev s) a (verdict a old new)).1
                (old, new, d1, d2, refl),
            same,
          )
          refl,
  )

  allowed-none :
      (uid : String) (v : Option Error) → ((review_response uid v).allowed ≡ true) ↔ (v ≡ none)
  unfolding review_response
  allowed-none uid v = ground arith

  answer-allowed_iff :
      (a : AdmissionRequest) (old new : Option b.Object) (answer : ReviewAnswer)
      → answer ≡ review_response a.uid (verdict a old new)
      → (answer.allowed ≡ true) ↔ IsAccepted ev (attributes b a old new) s
  answer-allowed_iff a old new answer same =
      let (to, from) = allowed-none a.uid (verdict a old new) in
      let (accepted, verdict_none) = webhook-IsAccepted ev (attributes b a old new) s in
      rw same ((λ h. accepted (to h)), (λ h. from (verdict_none h)))

  -- The answer of `main` to a request that it can read.
  abbrev pub IsAnswered : HttpRequest → Type 0
  IsAnswered req =
      (a : AdmissionRequest) × (old : Option b.Object) × (new : Option b.Object)
      × (answer : ReviewAnswer) × (out : Bytes) × (req.content_type ≡ "application/json")
      × (req.body ≢ [])
      × (b.unmarshal_review req.body ≡ ok (some a))
      × (decode_raw b a.old_object_raw a.kind ≡ pass old)
      × (decode_raw b a.object_raw a.kind ≡ pass new)
      × (answer ≡ review_response a.uid (verdict a old new))
      × (b.marshal_review answer ≡ ok out)
      × ((handle_webhook_validate (webhook_backend b ev s) req).body ≡ bytes out)
      × (answer.uid ≡ a.uid)
      × ((answer.allowed ≡ true) ↔ IsAccepted ev (attributes b a old new) s)

  -- The answer of `main` to an HTTP request has status 200 exactly when the request is a JSON body that
  -- holds a review with a request, both of the request's objects decode at its kind, and the answer
  -- marshals. The body is then that text; the answer has the request's uid, and allows the request exactly
  -- when it is about the policies or bindings themselves, or the wait for the evaluator's caches ends
  -- without an error and the evaluator then has no error.
  pub main_answer_iff :
      (req : HttpRequest)
      → ((handle_webhook_validate (webhook_backend b ev s) req).status ≡ 200) ↔ IsAnswered req
  unfolding webhook_backend review_response
  main_answer_iff req =
      let status = (handle_webhook_validate-status (webhook_backend b ev s) req).1 in
      (
        λ h.
            let (a, answer, out, parsed, passed, written, body) = status.0 h in
            let (json, full, read) = (parse_request_iff (webhook_backend b ev s) req a).0 parsed in
            let (old, new, d1, d2, same) = (review-pass_iff a answer).0 passed in
            (
              a,
              old,
              new,
              answer,
              out,
              json,
              full,
              read,
              d1,
              d2,
              same,
              written,
              body,
              ap (λ x. x.uid) same,
              answer-allowed_iff a old new answer same,
            ),
        λ (a, old, new, answer, out, json, full, read, d1, d2, same, written, body, uid, allowed).
            status.1 (
              a,
              answer,
              out,
              (parse_request_iff (webhook_backend b ev s) req a).1 (json, full, read),
              (review-pass_iff a answer).1 (old, new, d1, d2, same),
              written,
              body,
            ),
      )
