-- ===== src/Main/Lifecycle/Exit.antt =====
-- When `main` returns.
use cel_admission_webhook.Common.{
  ℕ, ◌+◌, ◌≡◌, refl, sym, ap, subst, Bool, true, false, Option, some, List, [], ◌∷◌, arith,
  Option-cases, Bool-cases, inl, inr, ◌⊎◌,
}
use cel_admission_webhook.Common.Errors.{Error}
use cel_admission_webhook.Webhook.Serve
use cel_admission_webhook.Webhook.Serve.{Event as Event'}
use cel_admission_webhook.Webhook.Serve.Exit.{restarts, run-returned, ctx_done-never_returns}
use cel_admission_webhook.Main.Lifecycle.{
  State, Event, signal, plugin_returns, serve, server_returns, wait_returns, start, has_returned,
  serve_step, step, run,
}
use mathlib.Core.Option

-- The events of the server alone.
abbrev pub serve_events : List Event → List Serve.Event
serve_events [] = []
serve_events (serve e ∷ events) = e ∷ serve_events events
serve_events (signal ∷ events) = serve_events events
serve_events (plugin_returns ∷ events) = serve_events events
serve_events (server_returns ∷ events) = serve_events events
serve_events (wait_returns ∷ events) = serve_events events

abbrev running : Bool → ℕ
running true = 1
running false = 0

-- The WaitGroup counts the goroutines that run. One that has ended has ended the context of the
-- other, and `webhook.Run` has returned before its goroutine ends; `main` has returned only if
-- neither runs.
pub record Inv (s : State) : Type 0 where
  pub counted : s.wg ≡ running s.plugin_running + running s.server_running
  pub plugin_ends : (s.plugin_running ≡ true) ⊎ (s.cancelled ≡ true)
  pub server_ends : (s.server_running ≡ true) ⊎ (s.cancelled ≡ true)
  pub returned_first : (s.server_running ≡ true) ⊎ (has_returned s.server.main ≡ true)
  pub both_ended : (s.exited ≡ false) ⊎ ((s.plugin_running ≡ false) × (s.server_running ≡ false))

start-Inv : Inv start
unfolding start
start-Inv = record {
  counted = refl;
  plugin_ends = inl refl;
  server_ends = inl refl;
  returned_first = inl refl;
  both_ended = inl refl;
}

-- What has returned stays so.
stays_returned :
    (s t : Serve.State) (e : Serve.Event)
    → Serve.step s e ≡ some t
    → has_returned s.main ≡ true
    → has_returned t.main ≡ true
unfolding Serve.step
stays_returned s t (Serve.Event.ctx_done e) h r = ground arith
stays_returned s t Serve.Event.receive_error h r = ground arith
stays_returned s t (Serve.Event.watch_closed e) h r = ground arith
stays_returned s t Serve.Event.restart h r = ground arith
stays_returned s t (Serve.Event.listen_returns n e) h r = ground arith
stays_returned s t (Serve.Event.goroutine_ends n) h r = ground arith
stays_returned s t Serve.Event.shutdown_ends h r = ground arith
stays_returned s t Serve.Event.wait_returns h r = ground arith

serve_step-cases :
    (s t : State) (e : Event')
    → serve_step s e ≡ some t
    → (u : Serve.State) × (Serve.step s.server e ≡ some u) × (t ≡ record s { server = u })
unfolding serve_step
serve_step-cases s t e h =
    let (u, moved, same) = (Option.map-eq-some_iff _ _).0 h in (u, moved, sym same)

serve_step-Inv : (s t : State) (e : Event') → serve_step s e ≡ some t → Inv s → Inv t
serve_step-Inv s t e h v =
    let (u, moved, same) = serve_step-cases s t e h in
    subst Inv (sym same) (record {
      counted = v.counted;
      plugin_ends = v.plugin_ends;
      server_ends = v.server_ends;
      returned_first = elim v.returned_first [
        | inl r ↦ inl r
        | inr r ↦ inr (stays_returned s.server u e moved r)
      ];
      both_ended = v.both_ended;
    })

serve-moves : (s t : State) (e : Event') → step s (serve e) ≡ some t → serve_step s e ≡ some t
unfolding step
serve-moves s t e h = ground arith

step-Inv : (s t : State) (e : Event) → step s e ≡ some t → Inv s → Inv t
unfolding step
step-Inv s t signal h v = ground arith
step-Inv s t plugin_returns h v = ground arith
step-Inv s t (serve e) h v = serve_step-Inv s t e (serve-moves s t e h) v
step-Inv s t server_returns h v = ground arith
step-Inv s t wait_returns h v = ground arith

run-Inv : (s t : State) (events : List Event) → run s events ≡ some t → Inv s → Inv t
unfolding run
run-Inv s t [] h v = subst Inv (Option.some-injective _ _ h) v
run-Inv s t (e ∷ events) h v = elim (Option-cases (step s e)) [
  | inl stuck ↦ cc (rw (stuck, run) at h)
  | inr (u, moved) ↦ run-Inv u t events (rw (moved, run) at h) (step-Inv s u e moved v)
]

-- What one event does to the server: a step of `webhook.Run`, or nothing.
abbrev ServerMoves : Event → Serve.State → Serve.State → Type 0
ServerMoves (serve e) s t = Serve.step s e ≡ some t
ServerMoves _ s t = t ≡ s

step-server : (s t : State) (e : Event) → step s e ≡ some t → ServerMoves e s.server t.server
unfolding step
step-server s t signal h = ground arith
step-server s t plugin_returns h = ground arith
step-server s t (serve e) h =
    let (u, moved, same) = serve_step-cases s t e (serve-moves s t e h) in rw same moved
step-server s t server_returns h = ground arith
step-server s t wait_returns h = ground arith

run-one :
    (e : Event) (events : List Event) (s u : Serve.State) (r : Option Serve.State)
    → ServerMoves e s u
    → Serve.run u (serve_events events) ≡ r
    → Serve.run s (serve_events (e ∷ events)) ≡ r
unfolding Serve.run
run-one signal events s u r moved rest = rw (← moved) rest
run-one plugin_returns events s u r moved rest = rw (← moved) rest
run-one (serve e) events s u r moved rest = rw (moved, Serve.run) rest
run-one server_returns events s u r moved rest = rw (← moved) rest
run-one wait_returns events s u r moved rest = rw (← moved) rest

run-server :
    (s t : State) (events : List Event)
    → run s events ≡ some t
    → Serve.run s.server (serve_events events) ≡ some t.server
unfolding run
run-server s t [] h = unfold Serve.run in ap (Option.map (λ x. x.server)) h
run-server s t (e ∷ events) h = elim (Option-cases (step s e)) [
  | inl stuck ↦ cc (rw (stuck, run) at h)
  | inr (u, moved) ↦
      run-one e events s.server u.server (some t.server) (step-server s u e moved)
        (run-server u t events (rw (moved, run) at h))
]

returned_with : (m : Serve.Main) → has_returned m ≡ true → (r : Error) × (m ≡ Serve.Main.returned r)
returned_with Serve.Main.looping h = absurd (cc)
returned_with (Serve.Main.waiting e) h = absurd (cc)
returned_with (Serve.Main.returned e) h = (e, refl)

exited-returned :
    (s : State) → Inv s → s.exited ≡ true → (r : Error) × (s.server.main ≡ Serve.Main.returned r)
exited-returned s v gone = returned_with s.server.main (ground arith)

-- When `main` has returned, both goroutines have ended and their context too; `webhook.Run` returned
-- the error with which its one listener ended, and no server was ever relaunched.
pub run-exited :
    (events : List Event) (t : State)
    → run start events ≡ some t
    → t.exited ≡ true
    → (e : Error) × (t.plugin_running ≡ false)
      × (t.server_running ≡ false)
      × (t.cancelled ≡ true)
      × (t.server.main ≡ Serve.Main.returned e)
      × (t.server.servers ≡ Serve.Server.done e ∷ [])
      × (restarts (serve_events events) ≡ 0)
unfolding start
run-exited events t h gone =
    let v = run-Inv start t events h start-Inv in
    let (e, back) = exited-returned t v gone in
    let (one, never) =
      run-returned (serve_events events) t.server e (run-server start t events h) back in
    (e, ground arith, ground arith, ground arith, back, one, never)

-- The bug: once the server's loop has seen the shared context end, after a signal or because the plugin
-- has stopped, `main` never returns.
pub ctx_done-never_exits :
    (before after : List Event) (s t u : State) (e : Error)
    → run start before ≡ some s
    → step s (serve (Serve.Event.ctx_done e)) ≡ some t
    → run t after ≡ some u
    → u.exited ≡ false
unfolding start
ctx_done-never_exits before after s t u e h moved later =
    let v = run-Inv t u after later (step-Inv s t _ moved (run-Inv start s before h start-Inv)) in
    elim (Bool-cases u.exited) [
      | inl gone ↦
          let (r, back) = exited-returned u v gone in
          absurd (
            ctx_done-never_returns (serve_events before) (serve_events after) s.server t.server
              u.server e r (run-server start s before h) (step-server s t _ moved)
              (run-server t u after later) back)
      | inr still ↦ still
    ]
