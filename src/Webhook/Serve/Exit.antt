-- ===== src/Webhook/Serve/Exit.antt =====
-- When `webhook.Run` returns: the interface promises an error for every end of the context or of
-- the listener.
use cel_admission_webhook.Common.{
  ℕ, zero, suc, ◌+◌, ◌-◌, ◌<◌, ◌≡◌, refl, ap, ◌∙◌, ◌≢◌, inl, inr, Option, some, List, [], ◌∷◌,
  arith, All, Option-cases, subst, length,
}
use mathlib.Core.Option
use cel_admission_webhook.Common.Errors.{Error}
use cel_admission_webhook.Webhook.Serve.{
  Server, finishing, done, Main, looping, waiting, returned, State, Event, ctx_done, receive_error,
  watch_closed, restart, listen_returns, goroutine_ends, shutdown_ends, wait_returns, start, leave,
  receive, relaunch, update_at, listen_result, end_goroutine, finish_wait, step, run,
}
use cel_admission_webhook.Webhook.Serve.Invariant.{
  IsUnread, Shape, held_by, Inv, start-Inv, step-Inv, run-Inv, listen-IsUnread, end-IsUnread,
}

length-update_at :
    (f : Server → Option Server) (n : ℕ) (xs ys : List Server)
    → update_at n f xs ≡ some ys
    → length ys ≡ length xs
unfolding update_at
length-update_at f n [] ys h = cc
length-update_at f zero (x ∷ xs) ys h =
    let (y, found, same) = (Option.map-eq-some_iff _ _).0 h in rw (← same)
length-update_at f (suc n) (x ∷ xs) ys h =
    let (zs, found, same) = (Option.map-eq-some_iff _ _).0 h in
    rw (← same) (ap suc (length-update_at f n xs zs found))

abbrev pub is_restart : Event → ℕ
is_restart restart = 1
is_restart _ = 0

abbrev pub restarts : List Event → ℕ
restarts [] = 0
restarts (e ∷ events) = is_restart e + restarts events

pub length-step :
    (s t : State) (e : Event)
    → step s e ≡ some t
    → length t.servers ≡ length s.servers + is_restart e
unfolding step leave receive relaunch finish_wait
length-step s t (ctx_done e) h = ground arith
length-step s t receive_error h = ground arith
length-step s t (watch_closed e) h = ground arith
length-step s t restart h = ground arith
length-step s t (listen_returns n e) h =
    let (ys, found, same) = (Option.map-eq-some_iff _ _).0 h in
    rw (← same) (omega (arith, length-update_at (listen_result e) n s.servers ys found))
length-step s t (goroutine_ends n) h =
    let (ys, found, same) = (Option.map-eq-some_iff _ _).0 h in
    rw (← same) (omega (arith, length-update_at end_goroutine n s.servers ys found))
length-step s t shutdown_ends h = ground arith
length-step s t wait_returns h = ground arith

-- Nothing is shut down but for a restart.
pub shutdowns-step :
    (s t : State) (e : Event)
    → step s e ≡ some t
    → is_restart e ≡ 0
    → s.shutdowns ≡ 0
    → t.shutdowns ≡ 0
unfolding step leave receive relaunch finish_wait
shutdowns-step s t (ctx_done e) h kept z = ground arith
shutdowns-step s t receive_error h kept z = ground arith
shutdowns-step s t (watch_closed e) h kept z = ground arith
shutdowns-step s t restart h kept z = ground arith
shutdowns-step s t (listen_returns n e) h kept z =
    let (ys, found, same) = (Option.map-eq-some_iff _ _).0 h in rw (← same) z
shutdowns-step s t (goroutine_ends n) h kept z =
    let (ys, found, same) = (Option.map-eq-some_iff _ _).0 h in rw (← same) z
shutdowns-step s t shutdown_ends h kept z = ground arith
shutdowns-step s t wait_returns h kept z = ground arith

length-run :
    (s t : State) (events : List Event)
    → run s events ≡ some t
    → length t.servers ≡ length s.servers + restarts events
unfolding run
length-run s t [] h = ground arith
length-run s t (e ∷ events) h = elim (Option-cases (step s e)) [
  | inl stuck ↦ cc (rw (stuck, run) at h)
  | inr (u, moved) ↦
      let later = length-run u t events (rw (moved, run) at h) in
      omega (arith, length-step s u e moved)
]

returned-Shape :
    (e : Error) (m : Main) (xs : List Server) → m ≡ returned e → Shape m xs → xs ≡ done e ∷ []
returned-Shape e looping xs h s = cc
returned-Shape e (waiting r) xs h s = cc
returned-Shape e (returned r) [] h s = absurd s
returned-Shape e (returned r) (x ∷ []) h s = cc
returned-Shape e (returned r) (x ∷ y ∷ xs) h s = absurd s

-- When Run has returned an error, that is the error with which its one server ended: that server's
-- goroutine is done, and no server was ever relaunched.
pub run-returned :
    (events : List Event) (t : State) (e : Error)
    → run start events ≡ some t
    → t.main ≡ returned e
    → (t.servers ≡ done e ∷ []) × (restarts events ≡ 0)
unfolding start
run-returned events t e h m =
    let v = run-Inv start t events h start-Inv in
    let one = returned-Shape e t.main t.servers m v.shape in
    let grown = length-run start t events h in (one, omega (arith, ap length one))

-- The loop has left with no error received: every server's goroutine is in its way.
record IsStuck (s : State) : Type 0 where
  result : Error
  main_waits : s.main ≡ waiting result
  unread : All IsUnread s.servers
  some_server : s.servers ≢ []

length-nil : {xs ys : List Server} → length ys ≡ length xs → ys ≡ [] → xs ≡ []
length-nil {xs = []} h e = refl
length-nil {xs = x ∷ xs} h e = absurd (omega (arith, ap length e))

held_by-pos : (xs : List Server) → All IsUnread xs → xs ≢ [] → 0 < held_by xs
held_by-pos [] a h = absurd (h refl)
held_by-pos (x ∷ xs) a h = ground arith

step-IsStuck : (s t : State) (e : Event) → step s e ≡ some t → Inv s → IsStuck s → IsStuck t
unfolding step leave receive relaunch finish_wait
step-IsStuck s t (ctx_done e) h v k = cc (rw (k.main_waits, leave) at h)
step-IsStuck s t receive_error h v k = cc (rw (k.main_waits, receive) at h)
step-IsStuck s t (watch_closed e) h v k = cc (rw (k.main_waits, leave) at h)
step-IsStuck s t restart h v k = cc (rw (k.main_waits, relaunch) at h)
step-IsStuck s t (listen_returns n e) h v k =
    let (ys, found, same) = (Option.map-eq-some_iff _ _).0 h in
    let still = listen-IsUnread e n s.servers ys found k.unread in
    subst IsStuck same (record {
      result = k.result;
      main_waits = k.main_waits;
      unread = still;
      some_server = λ none'.
          k.some_server
            (length-nil (length-update_at (listen_result e) n s.servers ys found) none');
    })
step-IsStuck s t (goroutine_ends n) h v k =
    let (ys, found, same) = (Option.map-eq-some_iff _ _).0 h in
    cc (found, end-IsUnread n s.servers k.unread)
step-IsStuck s t shutdown_ends h v k =
    let same : (t.main ≡ s.main) × (t.servers ≡ s.servers) = ground arith in
    record {
      result = k.result;
      main_waits = same.0 ∙ k.main_waits;
      unread = rw same.1 k.unread;
      some_server = rw same.1 k.some_server;
    }
step-IsStuck s t wait_returns h v k =
    let held' = held_by-pos s.servers k.unread k.some_server in
    let open_wg : 0 < s.wg = omega (arith, v.counted) in absurd (ground (arith, k.main_waits))

run-IsStuck :
    (s t : State) (events : List Event) → run s events ≡ some t → Inv s → IsStuck s → IsStuck t
unfolding run
run-IsStuck s t [] h v k = subst IsStuck (Option.some-injective _ _ h) k
run-IsStuck s t (e ∷ events) h v k = elim (Option-cases (step s e)) [
  | inl stuck ↦ cc (rw (stuck, run) at h)
  | inr (u, moved) ↦
      run-IsStuck u t events (rw (moved, run) at h) (step-Inv s u e moved v)
        (step-IsStuck s u e moved v k)
]

looping-IsUnread :
    (m : Main) (xs : List Server) → m ≡ looping → Shape m xs → All IsUnread xs × (xs ≢ [])
looping-IsUnread looping [] h s = absurd s
looping-IsUnread looping (x ∷ xs) h s = (s, λ e. cc)
looping-IsUnread (waiting e) xs h s = cc
looping-IsUnread (returned e) xs h s = cc

left-IsStuck : (s t : State) (e : Error) → step s (ctx_done e) ≡ some t → Inv s → IsStuck t
unfolding step leave
left-IsStuck s t e h v =
    let inside : s.main ≡ looping = ground arith in
    let same : (t.main ≡ waiting e) × (t.servers ≡ s.servers) = ground arith in
    let (all, any) = looping-IsUnread s.main s.servers inside v.shape in
    record { result = e; main_waits = same.0; unread = rw same.1 all; some_server = rw same.1 any }

-- The bug: once the loop leaves because its context has ended, Run never returns, whatever the
-- goroutines and the servers do afterwards. Close makes ListenAndServeTLS return, but nothing
-- receives its error any more, so the deferred Wait blocks for good.
pub ctx_done-never_returns :
    (before after : List Event) (s t u : State) (e r : Error)
    → run start before ≡ some s
    → step s (ctx_done e) ≡ some t
    → run t after ≡ some u
    → u.main ≢ returned r
ctx_done-never_returns before after s t u e r h moved later gone =
    let v = run-Inv start s before h start-Inv in
    let k =
      run-IsStuck t u after later (step-Inv s t (ctx_done e) moved v)
        (left-IsStuck s t e moved v) in
    cc (gone, k.main_waits)

-- The events that finish a run whose one server's error was received: the goroutine's end, the end
-- of each goroutine that shuts a server down, and the return of Wait.
abbrev shutdowns_end : ℕ → List Event
shutdowns_end zero = wait_returns ∷ []
shutdowns_end (suc n) = shutdown_ends ∷ shutdowns_end n

abbrev pub exit_events : State → List Event
exit_events s = goroutine_ends 0 ∷ shutdowns_end s.shutdowns

shutdowns_end-returns :
    (n : ℕ) (s : State) (e : Error)
    → s.shutdowns ≡ n
    → s.main ≡ waiting e
    → s.wg ≡ n
    → (t : State) × (run s (shutdowns_end n) ≡ some t) × (t.main ≡ returned e)
unfolding run step finish_wait
shutdowns_end-returns zero s e k m w = (record s { main = returned e }, ground arith, refl)
shutdowns_end-returns (suc n) s e k m w =
    let (t, ran, back) =
      shutdowns_end-returns n (record s { shutdowns = s.shutdowns - 1; wg = s.wg - 1 }) e
        (omega arith) m (omega arith) in
    (t, ground arith, back)

-- Run does return when the loop received the error of its listener and no other server is left: in
-- every state that satisfies the invariant its goroutines can finish, and it returns that error.
pub received-returns :
    (s : State) (e : Error)
    → Inv s
    → s.main ≡ waiting e
    → s.servers ≡ finishing e ∷ []
    → (t : State) × (run s (exit_events s) ≡ some t) × (t.main ≡ returned e)
unfolding run step update_at end_goroutine
received-returns s e v m x =
    let count : s.wg ≡ suc s.shutdowns = ground arith in
    let (t, ran, back) =
      shutdowns_end-returns s.shutdowns (record s { servers = done e ∷ []; wg = s.wg - 1 }) e refl m
        (omega arith) in
    (t, rw (x, run) ran, back)
