-- ===== src/Webhook/Serve/Tests.antt =====
-- Tests and instances for Webhook/Serve.antt.
use cel_admission_webhook.Common.{◌≡◌, refl, ◌≢◌, none, some, List, [], ◌∷◌, arith}
use cel_admission_webhook.Common.Errors.{Error, errorf}
use cel_admission_webhook.Webhook.Serve.{
  serving, sending, finishing, done, waiting, returned, State, Event, ctx_done, receive_error,
  listen_returns, goroutine_ends, wait_returns, start, step, run,
}
use cel_admission_webhook.Webhook.Serve.Invariant.{Inv, step-Inv, start-Inv}
use cel_admission_webhook.Webhook.Serve.Exit.{
  restarts, run-returned, ctx_done-never_returns, exit_events, received-returns,
}

abbrev no_port : Error
no_port = errorf "address already in use"

abbrev cancelled : Error
cancelled = errorf "context canceled"

abbrev server_closed : Error
server_closed = errorf "http: Server closed"

-- The listener fails: the run returns its error.
abbrev failing : List Event
failing = listen_returns 0 no_port ∷ receive_error ∷ goroutine_ends 0 ∷ wait_returns ∷ []

abbrev returned_state : State
returned_state = record {
  main = returned no_port;
  servers = done no_port ∷ [];
  shutdowns = 0;
  wg = 0;
}

test_failing : run start failing ≡ some returned_state
unfolding run start step
test_failing = refl

-- The context ends: the server is closed, and its goroutine waits to send the error.
abbrev left_state : State
left_state = record { main = waiting cancelled; servers = serving ∷ []; shutdowns = 0; wg = 1 }

abbrev blocked_state : State
blocked_state = record left_state { servers = sending server_closed ∷ [] }

test_blocked :
    (run left_state (listen_returns 0 server_closed ∷ []) ≡ some blocked_state)
    × (run blocked_state (wait_returns ∷ []) ≡ none)
    × (run blocked_state (goroutine_ends 0 ∷ []) ≡ none)
unfolding run step
test_blocked = (refl, refl, refl)

step-Inv_example : Inv left_state
unfolding step start
step-Inv_example = step-Inv start left_state (ctx_done cancelled) refl start-Inv

run-returned_example : (returned_state.servers ≡ done no_port ∷ []) × (restarts failing ≡ 0)
unfolding run start step
run-returned_example = run-returned failing returned_state no_port refl refl

ctx_done-never_returns_example : blocked_state.main ≢ returned cancelled
unfolding run start step
ctx_done-never_returns_example =
    ctx_done-never_returns [] (listen_returns 0 server_closed ∷ []) start left_state blocked_state
      cancelled cancelled refl refl refl

abbrev received_state : State
received_state = record {
  main = waiting no_port;
  servers = finishing no_port ∷ [];
  shutdowns = 2;
  wg = 3;
}

received-returns_example :
    (t : State) × (run received_state (exit_events received_state) ≡ some t)
    × (t.main ≡ returned no_port)
received-returns_example =
    received-returns received_state no_port (record { counted = omega arith; shape = ground arith })
      refl refl
