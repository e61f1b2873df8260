-- ===== src/Main/Tests.antt =====
-- Tests and instances for Main.antt and Main/Lifecycle.antt.
use cel_admission_webhook.Common.{ℕ, ◌≡◌, refl, ◌↔◌, true, false, Option, none, some, List, [], ◌∷◌}
use cel_admission_webhook.Common.Errors.{Error, errorf, ok}
use cel_admission_webhook.Kinds.{GroupVersionKind}
use cel_admission_webhook.Validator.{any_handles, validate_each, new_multi}
use cel_admission_webhook.Plugin
use cel_admission_webhook.Plugin.{Condition, handles, is_policy_resource, synced_condition, plugin}
use cel_admission_webhook.Webhook.Review.{review_response}
use cel_admission_webhook.Webhook.Handler.{
  Backend, Bytes, HttpRequest, AdmissionRequest, pass, decode_raw, attributes, review,
  parse_request, write_review, handle_webhook_validate,
}
use cel_admission_webhook.Webhook.Serve
use cel_admission_webhook.Webhook.Serve.{
  finishing, done, waiting, returned, serving, sending, ctx_done, receive_error, listen_returns,
  goroutine_ends,
}
use cel_admission_webhook.Webhook.Serve.Exit.{restarts}
use cel_admission_webhook.Main.{Evaluator, validators, webhook_validator, webhook_backend}
use cel_admission_webhook.Main.Verdict.{IsAccepted, main_review-allowed_iff}
use cel_admission_webhook.Main.Answer.{IsAnswered, main_answer_iff}
use cel_admission_webhook.Main.Lifecycle.{
  State, Event, signal, plugin_returns, serve, server_returns, wait_returns, start, step, run,
}
use cel_admission_webhook.Main.Lifecycle.Exit.{serve_events, run-exited, ctx_done-never_exits}

abbrev closed : Error
closed = errorf "http: Server closed"

abbrev cancelled_error : Error
cancelled_error = errorf "context canceled"

-- The listener fails: its goroutine stops the plugin, and `main` returns.
abbrev failing : List Event
failing =
    serve (listen_returns 0 closed)
    ∷ serve receive_error
    ∷ serve (goroutine_ends 0)
    ∷ serve Serve.Event.wait_returns
    ∷ server_returns
    ∷ plugin_returns
    ∷ wait_returns
    ∷ []

abbrev exited : State
exited = record {
  plugin_running = false;
  server_running = false;
  server = record { main = returned closed; servers = done closed ∷ []; shutdowns = 0; wg = 0 };
  cancelled = true;
  wg = 0;
  exited = true;
}

test_failing : run start failing ≡ some exited
unfolding run start step Serve.step Serve.start
test_failing = refl

run-exited_example :
    (e : Error) × (exited.plugin_running ≡ false)
    × (exited.server_running ≡ false)
    × (exited.cancelled ≡ true)
    × (exited.server.main ≡ returned e)
    × (exited.server.servers ≡ done e ∷ [])
    × (restarts (serve_events failing) ≡ 0)
run-exited_example = run-exited failing exited test_failing refl

-- A signal: the server's loop leaves, the plugin stops, and nothing else can happen but a send that
-- nothing receives.
abbrev signalled : State
signalled = record start { cancelled = true }

abbrev left : State
left = record signalled {
  server = record { main = waiting cancelled_error; servers = serving ∷ []; shutdowns = 0; wg = 1 };
}

abbrev blocked : State
blocked = record left {
  server = record {
    main = waiting cancelled_error;
    servers = sending closed ∷ [];
    shutdowns = 0;
    wg = 1;
  };
  plugin_running = false;
  wg = 1;
}

test_blocked :
    (run left (serve (listen_returns 0 closed) ∷ plugin_returns ∷ []) ≡ some blocked)
    × (step blocked wait_returns ≡ none)
    × (step blocked server_returns ≡ none)
unfolding run start step Serve.step Serve.start
test_blocked = (refl, refl, refl)

ctx_done-never_exits_example : blocked.exited ≡ false
unfolding run start step Serve.step Serve.start
ctx_done-never_exits_example =
    ctx_done-never_exits (signal ∷ []) (serve (listen_returns 0 closed) ∷ plugin_returns ∷ [])
      signalled left blocked cancelled_error refl refl refl

abbrev pods : GroupVersionKind
pods = record { group = ""; version = "v1"; kind = "Pod" }

abbrev create_pod : AdmissionRequest
create_pod = record {
  uid = "u-2";
  kind = pods;
  resource = record { group = ""; version = "v1"; resource = "pods" };
  subresource = "";
  name = "web";
  namespace = "default";
  operation = "CREATE";
  user_info = record { username = "ann"; uid = "7"; groups = []; extra = none };
  object_raw = 1 ∷ 2 ∷ [];
  old_object_raw = [];
}

-- Every text is a pod.
abbrev pub pod_backend : Backend
pod_backend = record {
  Object = Bytes;
  quote = λ s. s;
  show_gvk = λ g. "kind";
  unmarshal_review = λ raw. ok (some create_pod);
  decode = λ raw. record { object = some raw; gvk = some pods; error = none };
  is_not_registered = λ e. false;
  unmarshal_unstructured = λ raw. ok raw;
  handles = λ operation. false;
  validate = λ a. none;
  marshal_review = λ answer. ok [];
}

-- An evaluator whose caches have synced, and which accepts all.
abbrev pub accepting : Evaluator Bytes
accepting = record {
  State = ℕ;
  has_synced = λ s. (true, s);
  validate = λ a s. (none, s);
  poll_immediate = λ interval timeout c s. (none, s);
  new_forbidden = λ a e. e;
}

allowed :
    review (webhook_backend pod_backend accepting 3) create_pod ≡ pass (review_response "u-2" none)
unfolding review webhook_backend webhook_validator new_multi validators any_handles validate_each
    plugin handles decode_raw attributes Plugin.validate is_policy_resource
allowed = refl

pod_allowed : ((review_response "u-2" none).allowed ≡ true) ↔ (
    (old new : Option Bytes) × (decode_raw pod_backend [] pods ≡ pass old)
    × (decode_raw pod_backend (1 ∷ 2 ∷ []) pods ≡ pass new)
    × IsAccepted accepting (attributes pod_backend create_pod old new) 3)
pod_allowed =
    main_review-allowed_iff pod_backend accepting 3 create_pod (review_response "u-2" none) allowed

abbrev pub post_pod : HttpRequest
post_pod = record { content_type = "application/json"; body = 123 ∷ 125 ∷ [] }

answered : (handle_webhook_validate (webhook_backend pod_backend accepting 3) post_pod).status ≡ 200
unfolding handle_webhook_validate parse_request write_review review webhook_backend
    webhook_validator new_multi validators any_handles validate_each plugin handles decode_raw
    attributes Plugin.validate is_policy_resource
answered = refl

pod_reply :
    ((handle_webhook_validate (webhook_backend pod_backend accepting 3) post_pod).status ≡ 200)
    ↔ IsAnswered pod_backend accepting 3 post_pod
pod_reply = main_answer_iff pod_backend accepting 3 post_pod
