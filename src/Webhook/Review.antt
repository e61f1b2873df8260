-- ===== src/Webhook/Review.antt =====
-- `reviewResponse` of pkg/webhook/server.go: the AdmissionReview that answers a request.
pub mod Laws
mod Tests
use cel_admission_webhook.Common.{ℕ, String, Bool, Option, none, some, is_none}
use cel_admission_webhook.Common.Errors.{Error, Status}

-- An `AdmissionReview` with its `Response` and the response's `Result`, flat.
pub record ReviewAnswer : Type 0 where
  pub kind : String
  pub api_version : String
  pub uid : String
  pub allowed : Bool
  pub code : ℕ
  pub message : String
  pub reason : String

abbrev pub status_accepted : ℕ
status_accepted = 202

abbrev pub status_forbidden : ℕ
status_forbidden = 403

-- `metav1.StatusReasonUnknown`
abbrev pub reason_unknown : String
reason_unknown = ""

-- What is sent for a failed validation: the status of a `StatusError`, or the error's text.
abbrev failure_status : Error → Status
failure_status e = elim e.as_status [
  | none ↦ record { code = status_forbidden; message = e.message; reason = reason_unknown }
  | some s ↦ s
]

abbrev result_status : Option Error → Status
result_status none = record { code = status_accepted; message = "valid"; reason = reason_unknown }
result_status (some e) = failure_status e

unfoldable pub review_response : String → Option Error → ReviewAnswer
review_response uid error = record {
  kind = "AdmissionReview";
  api_version = "admission.k8s.io/v1";
  uid = uid;
  allowed = is_none error;
  code = (result_status error).code;
  message = (result_status error).message;
  reason = (result_status error).reason;
}
