-- ===== src/Webhook/Review/Laws.antt =====
-- What a review's answer says of the validator's verdict.
use cel_admission_webhook.Common.{
  String, ◌≡◌, refl, ◌↔◌, ◌⊎◌, inl, inr, true, false, Option, none, some, arith, Option-cases,
}
use cel_admission_webhook.Common.Errors.{Error, Status}
use cel_admission_webhook.Webhook.Review.{
  ReviewAnswer, review_response, status_accepted, status_forbidden, reason_unknown,
}

-- How the result of an answer describes a verdict, stated apart from the code: an admission is 202
-- "valid", a status error is passed on as it is, any other error is 403 with the error's text.
abbrev pub Describes : Option Error → ReviewAnswer → Type 0
Describes none v =
    (v.allowed ≡ true)
    × (v.code ≡ status_accepted)
    × (v.message ≡ "valid")
    × (v.reason ≡ reason_unknown)
Describes (some e) v =
    (v.allowed ≡ false)
    × (((e.as_status ≡ none)
          × (v.code ≡ status_forbidden)
          × (v.message ≡ e.message)
          × (v.reason ≡ reason_unknown))
        ⊎ ((s : Status) × (e.as_status ≡ some s)
            × (v.code ≡ s.code)
            × (v.message ≡ s.message)
            × (v.reason ≡ s.reason)))

-- Whatever the verdict, the answer carries the request's uid, allows exactly an error-free verdict,
-- and describes the verdict: 202 "valid", the status error's own code, message and reason, or 403
-- with the error's text.
pub review_response-Describes :
    (uid : String) (error : Option Error)
    → ((review_response uid error).uid ≡ uid)
      × (((review_response uid error).allowed ≡ true) ↔ (error ≡ none))
      × Describes error (review_response uid error)
unfolding review_response
review_response-Describes uid none = ground arith
review_response-Describes uid (some e) = elim (Option-cases e.as_status) [
  | inl plain ↦ (refl, ground arith, (refl, inl (plain, ground arith, ground arith, ground arith)))
  | inr (s, found) ↦
      (refl, ground arith, (refl, inr (s, found, ground arith, ground arith, ground arith)))
]
