-- ===== src/Webhook/Review/Tests.antt =====
-- Tests and instances for Webhook/Review.antt.
use cel_admission_webhook.Common.{◌≡◌, refl, ◌↔◌, Option, none, some, true}
use cel_admission_webhook.Common.Errors.{Error, errorf}
use cel_admission_webhook.Webhook.Review.{review_response}
use cel_admission_webhook.Webhook.Review.Laws.{Describes, review_response-Describes}

abbrev denied : Error
denied = record {
  message = "denied";
  as_status = some (record { code = 422; message = "replicas"; reason = "Invalid" });
}

test_status : (review_response "u" (some denied)).code ≡ 422
unfolding review_response
test_status = refl

test_plain : (review_response "u" (some (errorf "boom"))).code ≡ 403
unfolding review_response
test_plain = refl

described :
    ((review_response "u" (some denied)).uid ≡ "u")
    × (((review_response "u" (some denied)).allowed ≡ true)
        ↔ (◌≡◌ {A = Option Error} (some denied) none))
    × Describes (some denied) (review_response "u" (some denied))
described = review_response-Describes "u" (some denied)
