-- ===== src/Webhook/Watched.antt =====
-- `webhook.Run` of pkg/webhook/server.go with the watch that it starts: the loop of Serve and the
-- goroutine of Watch, with the channel between them. The channel has no buffer: a notification is sent
-- only while the loop waits, and the loop has then received it.
pub mod Laws
mod Tests
use cel_admission_webhook.Common.{
  ℕ, ◌≡◌, refl, String, Bool, true, false, not, ◌||◌, Option, none, some, List, [], ◌∷◌, arith,
  nat_eq, if◌then◌else◌, length, Option-cases, Bool-cases, inl, inr, subst, sym, ◌∙◌,
}
use mathlib.Core.Option
use cel_admission_webhook.Common.Errors.{Error}
use cel_admission_webhook.Webhook.Serve
use cel_admission_webhook.Webhook.Watch
use cel_admission_webhook.Webhook.Watch.{Stat, Watcher, watch_step, tick, cancelled}
use cel_admission_webhook.Webhook.Watch.Laws.{IsBlind, start-IsBlind, watch_step-IsBlind}
use cel_admission_webhook.Webhook.Serve.Exit.{is_restart, length-step, shutdowns-step, restarts}

-- `ended` says that the context that `Run` was given has ended.
pub record State : Type 0 where
  pub serve : Serve.State
  pub watcher : Watcher
  pub ended : Bool

pub data Event : Type 0 where
  ctx_ends : Event
  moves : Serve.Event → Event
  ticks : Stat → Event
  watch_ends : Event
  channel_closed : Error → Event

-- The loop receives only from its `select`.
abbrev pub is_looping : Serve.Main → Bool
is_looping Serve.Main.looping = true
is_looping _ = false

-- What `moves` may be: the two receptions from the watch are events of their own, and the loop sees
-- the context end only when it has.
abbrev pub may_move : Bool → Serve.Event → Bool
may_move ended (Serve.Event.ctx_done e) = ended
may_move ended Serve.Event.restart = false
may_move ended (Serve.Event.watch_closed e) = false
may_move ended _ = true

abbrev pub with_serve : State → Watcher → Option Serve.State → Option State
with_serve s w m = Option.map (λ serve. record s { serve = serve; watcher = w }) m

-- The context of the watch ends with that of `Run`, or by the deferred `cancelWatches`.
unfoldable pub step : List String → State → Event → Option State
step paths s ctx_ends = some (record s { ended = true })
step paths s (moves e) =
    if may_move s.ended e then with_serve s s.watcher (Serve.step s.serve e) else none
step paths s (ticks stat) =
    let w = watch_step paths s.watcher (tick stat (is_looping s.serve.main)) in
    if nat_eq w.sent s.watcher.sent
    then some (record s { watcher = w })
    else with_serve s w (Serve.step s.serve Serve.Event.restart)
step paths s watch_ends =
    if s.ended || not (is_looping s.serve.main)
    then some (record s { watcher = watch_step paths s.watcher cancelled })
    else none
step paths s (channel_closed e) =
    if s.watcher.closed
    then with_serve s s.watcher (Serve.step s.serve (Serve.Event.watch_closed e))
    else none

unfoldable pub run : List String → State → List Event → Option State
run paths s [] = some s
run paths s (e ∷ events) = elim (step paths s e) [ none ↦ none | some t ↦ run paths t events ]

unfoldable pub start : List String → Stat → State
start paths stat = record { serve = Serve.start; watcher = Watch.start paths stat; ended = false }
