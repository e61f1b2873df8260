-- ===== src/Main/Startup/Answer.antt =====
-- What the webhook that `main` has started answers.
mod Tests
use cel_admission_webhook.Common.{◌≡◌, refl, sym, ap, ◌∙◌, subst, ◌↔◌, Bool, true, List}
use cel_admission_webhook.Client.Convert.{KubeClient, Codecs}
use cel_admission_webhook.Validator.{Validator, new_multi}
use cel_admission_webhook.Plugin.{plugin}
use cel_admission_webhook.Webhook.{Webhook}
use cel_admission_webhook.Webhook.Handler.{
  Backend, Attributes, HttpRequest, handle_webhook_validate,
}
use cel_admission_webhook.Main.{
  Clients, Evaluator, operation_of, plugin_host, validators, webhook_validator, webhook_backend,
}
use cel_admission_webhook.Main.Answer.{IsAnswered, main_answer_iff}
use cel_admission_webhook.Main.Startup.{Flags, Libraries, MainPlugin, MainUp, waiting, start_up}
use cel_admission_webhook.Main.Startup.Laws.{start_up-running}

module _ (b : Backend) (ev : Evaluator b.Object) where
  abbrev pub Checks : Type 0
  Checks = Validator (Attributes b.Object) ev.State

  -- `validator.NewMulti`
  abbrev pub multi : List Checks → Checks
  multi = new_multi (operation_of ev)

  -- The plugin is runnable.
  abbrev pub always : Checks → Bool
  always v = true

  -- The handler's surroundings on the validator of a webhook.
  unfoldable pub backend_of :
      {Interfaces Decoder : Type 0} → ev.State → Webhook Checks Interfaces Decoder → Backend
  backend_of s w = record b {
    handles = w.validator.handles;
    validate = λ a. (w.validator.validate a s).0;
  }

module _ {Options S P B P' B' : Type 0} (codecs : Codecs P B P' B')
    (clients : Clients Options S P B P' B')
    (libraries : Libraries
      (KubeClient Options S P B clients.Others)
      clients.Dynamic
      clients.Extensions)
    (b : Backend) (ev : Evaluator b.Object) where
  -- The plugin as a validator, whatever its fields are: what it does is the evaluator's.
  abbrev pub as_validator : MainPlugin codecs clients libraries → Checks b ev
  as_validator pl = plugin (plugin_host ev)

  -- When `main` has started, its webhook answers a request with status 200 exactly when the request
  -- is a JSON body that holds a review with a request, both of the request's objects decode at its kind,
  -- and the answer marshals. The body is then that text; the answer has the request's uid, and allows the
  -- request exactly when it is about the policies or bindings themselves, or the wait for the evaluator's
  -- caches ends without an error and the evaluator then has no error.
  pub start_up-answers :
      (flags : Flags) (u : MainUp codecs clients libraries (multi b ev) as_validator (always b ev))
      (s : ev.State) (req : HttpRequest)
      → start_up codecs clients libraries (multi b ev) as_validator (always b ev) flags ≡ waiting u
      → ((handle_webhook_validate (backend_of b ev s u.webhook) req).status ≡ 200)
        ↔ IsAnswered b ev s req
  unfolding backend_of webhook_backend webhook_validator validators
  start_up-answers flags u s req h =
      let (counted, spawned, wg, checks, addr, idle, none_run) =
        start_up-running codecs clients libraries (multi b ev) as_validator (always b ev)
          (λ pl. refl) flags u h in
      subst
        (λ v.
          ((handle_webhook_validate
              (record b { handles = v.handles; validate = λ a. (v.validate a s).0 }) req).status
            ≡ 200)
          ↔ IsAnswered b ev s req)
        (sym checks) (main_answer_iff b ev s req)
