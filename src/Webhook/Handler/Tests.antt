-- ===== src/Webhook/Handler/Tests.antt =====
-- A concrete backend for Webhook/Handler.antt, tests and instances.
use cel_admission_webhook.Common.{
  ◌≡◌, refl, ◌≢◌, ◌↔◌, ◌⊎◌, Bool, true, false, none, some, [], ◌∷◌, ◌==◌, if◌then◌else◌,
}
use cel_admission_webhook.Common.Errors.{Error, errorf, Result, ok}
use cel_admission_webhook.Kinds.{GroupVersionKind}
use cel_admission_webhook.Webhook.Review.{review_response}
use cel_admission_webhook.Webhook.Handler.{
  Backend, Bytes, bytes, Decoded, HttpRequest, AdmissionRequest, UserInfo, parse_request,
  decode_raw, attributes, review, handle_webhook_validate, write_review,
}
use cel_admission_webhook.Webhook.Handler.Decode.{decode_raw-kind}
use cel_admission_webhook.Webhook.Handler.Verdict.{review-allowed_iff}
use cel_admission_webhook.Webhook.Handler.Answer.{parse_request_iff, handle_webhook_validate-status}

abbrev pods : GroupVersionKind
pods = record { group = ""; version = "v1"; kind = "Pod" }

abbrev someone : UserInfo
someone = record {
  username = "ann";
  uid = "7";
  groups = "dev" ∷ [];
  extra = some (("scopes", "a" ∷ "b" ∷ []) ∷ []);
}

abbrev create_pod : AdmissionRequest
create_pod = record {
  uid = "u-1";
  kind = pods;
  resource = record { group = ""; version = "v1"; resource = "pods" };
  subresource = "";
  name = "web";
  namespace = "default";
  operation = "CREATE";
  user_info = someone;
  object_raw = 1 ∷ 2 ∷ [];
  old_object_raw = [];
}

abbrev decode_pod : Bytes → Decoded Bytes
decode_pod raw = record { object = some raw; gvk = some pods; error = none }

-- Every text is a pod; the validator refuses pods of the namespace "locked".
abbrev pod_backend : Backend
pod_backend = record {
  Object = Bytes;
  quote = λ s. s;
  show_gvk = λ g. "kind";
  unmarshal_review = λ raw. ok (some create_pod);
  decode = decode_pod;
  is_not_registered = λ e. false;
  unmarshal_unstructured = λ raw. ok raw;
  handles = λ operation. true;
  validate = λ a. if a.namespace == "locked" then some (errorf "locked") else none;
  marshal_review = λ answer. ok (if answer.allowed then 1 ∷ [] else 0 ∷ []);
}

abbrev post : HttpRequest
post = record { content_type = "application/json"; body = 123 ∷ 125 ∷ [] }

test_handle : (handle_webhook_validate pod_backend post).body ≡ bytes (1 ∷ [])
unfolding handle_webhook_validate parse_request review decode_raw attributes review_response
    write_review
test_handle = refl

test_refused :
    (handle_webhook_validate pod_backend (record { content_type = "text/plain"; body = [] })).status
    ≡ 400
unfolding handle_webhook_validate parse_request
test_refused = refl

decode_raw-kind_example :
    ((decode_pod (1 ∷ 2 ∷ [])).gvk ≡ some pods)
    × ((((decode_pod (1 ∷ 2 ∷ [])).error ≡ none)
          × ((decode_pod (1 ∷ 2 ∷ [])).object ≡ some (1 ∷ 2 ∷ [])))
        ⊎ ((e : Error) × ((decode_pod (1 ∷ 2 ∷ [])).error ≡ some e)
            × (◌≡◌ {A = Bool} false true)
            × (◌≡◌ {A = Result Bytes} (ok (1 ∷ 2 ∷ [])) (ok (1 ∷ 2 ∷ [])))))
unfolding decode_raw
decode_raw-kind_example = decode_raw-kind pod_backend (1 ∷ 2 ∷ []) pods (1 ∷ 2 ∷ []) refl

review-allowed_iff_example : (review_response "u-1" none).uid ≡ "u-1"
unfolding review decode_raw attributes
review-allowed_iff_example =
    (review-allowed_iff pod_backend create_pod (review_response "u-1" none) refl).0

post_parsed : (parse_request pod_backend post ≡ ok create_pod) ↔ (
    (post.content_type ≡ "application/json")
    × (post.body ≢ [])
    × (pod_backend.unmarshal_review post.body ≡ ok (some create_pod)))
post_parsed = parse_request_iff pod_backend post create_pod

answered_status :
    ((handle_webhook_validate pod_backend post).status ≡ 200)
    ⊎ ((handle_webhook_validate pod_backend post).status ≡ 400)
    ⊎ ((handle_webhook_validate pod_backend post).status ≡ 500)
answered_status = (handle_webhook_validate-status pod_backend post).0
