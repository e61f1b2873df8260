-- ===== src/Main/Lifecycle.antt =====
-- The end of `main` in cmd/cel-admission-webhook/main.go: the goroutine of the plugin, the goroutine of
-- the webhook server, the context that they share, and the WaitGroup that `main` waits for. The
-- server is that of Webhook/Serve.antt. A run is a list of events; an event that cannot happen in a
-- state gives `none`.
pub mod Exit
use cel_admission_webhook.Common.{
  ℕ, ◌-◌, Bool, true, false, Option, none, some, List, [], ◌∷◌, nat_eq, if◌then◌else◌,
}
use cel_admission_webhook.Webhook.Serve
use mathlib.Core.Option

-- `plugin_running` and `server_running` say that a goroutine has not called `waitGroup.Done()`;
-- `cancelled` that `serverContext` has ended; `exited` that `main` has returned.
pub record State : Type 0 where
  pub plugin_running : Bool
  pub server_running : Bool
  pub server : Serve.State
  pub cancelled : Bool
  pub wg : ℕ
  pub exited : Bool

-- A signal ends the root context, and `serverContext` with it. The events of the server are those of
-- `webhook.Run`.
pub data Event : Type 0 where
  signal : Event
  plugin_returns : Event
  serve : Serve.Event → Event
  server_returns : Event
  wait_returns : Event

-- Both goroutines are started, each after `waitGroup.Add(1)`.
unfoldable pub start : State
start = record {
  plugin_running = true;
  server_running = true;
  server = Serve.start;
  cancelled = false;
  wg = 2;
  exited = false;
}

-- The loop of the server sees its context end, and the watch its own, only after `serverContext` has.
abbrev pub needs_end : Serve.Event → Bool
needs_end (Serve.Event.ctx_done e) = true
needs_end (Serve.Event.watch_closed e) = true
needs_end _ = false

abbrev pub has_returned : Serve.Main → Bool
has_returned (Serve.Main.returned e) = true
has_returned _ = false

serve_step : State → Serve.Event → Option State
serve_step s e = Option.map (λ server. record s { server = server }) (Serve.step s.server e)

unfoldable pub step : State → Event → Option State
unfolding serve_step
step s signal = some (record s { cancelled = true })
step s plugin_returns =
    if s.plugin_running
    then some (record s { plugin_running = false; cancelled = true; wg = s.wg - 1 })
    else none
step s (serve e) =
    if needs_end e then if s.cancelled then serve_step s e else none else serve_step s e
step s server_returns =
    if s.server_running
    then if has_returned s.server.main
      then some (record s { server_running = false; cancelled = true; wg = s.wg - 1 })
      else none
    else none
step s wait_returns = if nat_eq s.wg 0 then some (record s { exited = true }) else none

unfoldable pub run : State → List Event → Option State
run s [] = some s
run s (e ∷ events) = elim (step s e) [ none ↦ none | some t ↦ run t events ]
