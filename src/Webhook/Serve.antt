-- ===== src/Webhook/Serve.antt =====
-- `webhook.Run` of pkg/webhook/server.go: the loop that serves, its goroutines and the WaitGroup.
-- A run is a list of events; `step` answers `none` to an event that cannot happen in a state. The
-- error channel of each server is unbuffered: its goroutine goes on only when the loop receives.
pub mod Invariant
pub mod Exit
mod Tests
use cel_admission_webhook.Common.{
  ℕ, zero, suc, ◌+◌, ◌-◌, String, Option, none, some, List, [], ◌∷◌, nat_eq, if◌then◌else◌,
}
use cel_admission_webhook.Common.Errors.{Error}
use mathlib.Core.Option

-- The goroutine of one `launchServer`: in ListenAndServeTLS, blocked on `errChan <- err`, at its
-- deferred calls, or returned.
pub data Server : Type 0 where
  serving : Server
  sending : Error → Server
  finishing : Error → Server
  done : Error → Server

-- The function itself: in its loop, in the deferred `wg.Wait()` with its result, or returned.
pub data Main : Type 0 where
  looping : Main
  waiting : Error → Main
  returned : Error → Main

-- `servers` is headed by `currentServer`; `shutdowns` counts the goroutines that call Shutdown.
pub record State : Type 0 where
  pub main : Main
  pub servers : List Server
  pub shutdowns : ℕ
  pub wg : ℕ

pub data Event : Type 0 where
  ctx_done : Error → Event
  receive_error : Event
  watch_closed : Error → Event
  restart : Event
  listen_returns : ℕ → Error → Event
  goroutine_ends : ℕ → Event
  shutdown_ends : Event
  wait_returns : Event

-- `wg.Add(1)` of Run and of the first `launchServer`.
unfoldable pub start : State
start = record { main = looping; servers = serving ∷ []; shutdowns = 0; wg = 2 }

-- `break loop`, then the deferred calls down to `wg.Done()`.
leave : State → Main → Error → Option State
leave s looping e = some (record s { main = waiting e; wg = s.wg - 1 })
leave s (waiting _) e = none
leave s (returned _) e = none

-- `case serverError, _ = <-currentErrorChannel`: the current goroutine goes on to its end.
receive : State → Main → List Server → Option State
receive s looping (sending e ∷ older) =
    some (record s { main = waiting e; servers = finishing e ∷ older; wg = s.wg - 1 })
receive s _ _ = none

-- `case _, ok := <-keyWatch` with `ok`: one goroutine to shut the old server down, one to serve.
relaunch : State → Main → Option State
relaunch s looping =
    some (record s { servers = serving ∷ s.servers; shutdowns = s.shutdowns + 1; wg = s.wg + 2 })
relaunch s (waiting _) = none
relaunch s (returned _) = none

pub update_at : ℕ → (Server → Option Server) → List Server → Option (List Server)
update_at n f [] = none
update_at zero f (x ∷ xs) = Option.map (λ y. y ∷ xs) (f x)
update_at (suc n) f (x ∷ xs) = Option.map (◌∷◌ x) (update_at n f xs)

-- `err := srv.ListenAndServeTLS(…)`
pub listen_result : Error → Server → Option Server
listen_result e serving = some (sending e)
listen_result e _ = none

-- `close(errChan)` and `wg.Done()`
pub end_goroutine : Server → Option Server
end_goroutine (finishing e) = some (done e)
end_goroutine _ = none

-- `wg.Wait()` returns at zero.
finish_wait : State → Main → Option State
finish_wait s (waiting e) = if nat_eq s.wg 0 then some (record s { main = returned e }) else none
finish_wait s looping = none
finish_wait s (returned _) = none

unfoldable pub step : State → Event → Option State
unfolding leave receive relaunch update_at listen_result end_goroutine finish_wait
step s (ctx_done e) = leave s s.main e
step s receive_error = receive s s.main s.servers
step s (watch_closed e) = leave s s.main e
step s restart = relaunch s s.main
step s (listen_returns n e) =
    Option.map (λ servers. record s { servers = servers }) (update_at n (listen_result e) s.servers)
step s (goroutine_ends n) =
    Option.map (λ servers. record s { servers = servers; wg = s.wg - 1 })
      (update_at n end_goroutine s.servers)
step s shutdown_ends =
    if nat_eq s.shutdowns 0
    then none
    else some (record s { shutdowns = s.shutdowns - 1; wg = s.wg - 1 })
step s wait_returns = finish_wait s s.main

unfoldable pub run : State → List Event → Option State
run s [] = some s
run s (e ∷ events) = elim (step s e) [ none ↦ none | some t ↦ run t events ]
