-- ===== src/Main/Startup/Answer/Tests.antt =====
-- A started process that is sent a pod.
use cel_admission_webhook.Common.{◌≡◌, refl, ◌↔◌}
use cel_admission_webhook.Client.Convert.{new_wrapped_client}
use cel_admission_webhook.Webhook.Handler.{handle_webhook_validate}
use cel_admission_webhook.Main.{make_parts, set_up, load_client_config}
use cel_admission_webhook.Main.Answer.{IsAnswered}
use cel_admission_webhook.Main.Tests.{pod_backend, accepting, post_pod}
use cel_admission_webhook.Main.Startup.{default_flags, MainUp, start_up, start_all, waiting}
use cel_admission_webhook.Main.Startup.Tests.{text_codecs, made, counts, admission}
use cel_admission_webhook.Main.Startup.Answer.{
  multi, as_validator, always, backend_of, start_up-answers,
}

abbrev up :
    MainUp text_codecs made
      (counts made)
      (multi pod_backend accepting)
      (as_validator text_codecs made (counts made) pod_backend accepting)
      (always pod_backend accepting)
up =
    start_all text_codecs made (counts made) (multi pod_backend accepting)
      (as_validator text_codecs made (counts made) pod_backend accepting)
      (always pod_backend accepting) default_flags
      (record {
        custom_client = admission;
        kube_client =
            new_wrapped_client text_codecs (record { admission = admission; others = 0 }) admission;
        dynamic_client = 1;
        extensions_client = 2;
      })

goes_up :
    start_up text_codecs made
      (counts made)
      (multi pod_backend accepting)
      (as_validator text_codecs made (counts made) pod_backend accepting)
      (always pod_backend accepting)
      default_flags
    ≡ waiting up
unfolding start_up set_up make_parts load_client_config
goes_up = refl

start_up-answers_example :
    ((handle_webhook_validate (backend_of pod_backend accepting 3 up.webhook) post_pod).status
      ≡ 200)
    ↔ IsAnswered pod_backend accepting 3 post_pod
start_up-answers_example =
    start_up-answers text_codecs made (counts made) pod_backend accepting default_flags up 3
      post_pod goes_up
