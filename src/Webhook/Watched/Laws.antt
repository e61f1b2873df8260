-- ===== src/Webhook/Watched/Laws.antt =====
-- The watch on the TLS files never restarts the server.
use cel_admission_webhook.Common.{
  ℕ, ◌≡◌, refl, String, Bool, true, false, not, ◌||◌, Option, none, some, List, [], ◌∷◌, arith,
  nat_eq, if◌then◌else◌, length, Option-cases, inl, inr, subst, sym, ◌∙◌,
}
use mathlib.Core.Option
use cel_admission_webhook.Webhook.Serve
use cel_admission_webhook.Webhook.Watch
use cel_admission_webhook.Webhook.Watch.{Stat, Watcher, watch_step, tick, cancelled}
use cel_admission_webhook.Webhook.Watch.Laws.{IsBlind, start-IsBlind, watch_step-IsBlind}
use cel_admission_webhook.Webhook.Serve.Exit.{is_restart, length-step, shutdowns-step}
use cel_admission_webhook.Webhook.Watched.{
  State, Event, ctx_ends, moves, ticks, watch_ends, channel_closed, is_looping, may_move,
  with_serve, step, run, start,
}

-- One server that is never shut down, beside a watch that never speaks.
record IsSingle (s : State) : Type 0 where
  blind : IsBlind s.watcher s.watcher.closed
  single : length s.serve.servers ≡ 1
  kept : s.serve.shutdowns ≡ 0

start-IsSingle : (paths : List String) (stat : Stat) → IsSingle (start paths stat)
unfolding start Serve.start Watch.start
start-IsSingle paths stat = record { blind = start-IsBlind paths stat; single = refl; kept = refl }

serve-IsSingle :
    (s t : State) (e : Serve.Event)
    → is_restart e ≡ 0
    → with_serve s s.watcher (Serve.step s.serve e) ≡ some t
    → IsSingle s
    → IsSingle t
serve-IsSingle s t e kept h v =
    let (u, moved, same) = (Option.map-eq-some_iff _ _).0 h in
    let grown = length-step s.serve u e moved in
    subst IsSingle same (record {
      blind = v.blind;
      single = omega arith;
      kept = shutdowns-step s.serve u e moved kept v.kept;
    })

may_move-kept : (ended : Bool) (e : Serve.Event) → may_move ended e ≡ true → is_restart e ≡ 0
may_move-kept ended (Serve.Event.ctx_done e) h = refl
may_move-kept ended Serve.Event.receive_error h = refl
may_move-kept ended (Serve.Event.watch_closed e) h = refl
may_move-kept ended Serve.Event.restart h = absurd (cc)
may_move-kept ended (Serve.Event.listen_returns n e) h = refl
may_move-kept ended (Serve.Event.goroutine_ends n) h = refl
may_move-kept ended Serve.Event.shutdown_ends h = refl
may_move-kept ended Serve.Event.wait_returns h = refl

-- A blind watch stays blind, whatever its step.
watched-IsBlind :
    (paths : List String) (w : Watcher) (e : Watch.Event)
    → IsBlind w w.closed
    → IsBlind (watch_step paths w e) (watch_step paths w e).closed
watched-IsBlind paths w e b =
    let c = watch_step-IsBlind paths w w.closed e b in
    record { last = c.last; silent = c.silent; open_until = refl }

with_watcher-IsSingle :
    (s : State) (w : Watcher)
    → IsBlind w w.closed
    → IsSingle s
    → IsSingle (record s { watcher = w })
with_watcher-IsSingle s w b v = record { blind = b; single = v.single; kept = v.kept }

-- A guarded step that happened.
if-eq-some :
    {A : Type 0} (b : Bool) (m : Option A) {a : A}
    → (if b then m else none) ≡ some a
    → (b ≡ true) × (m ≡ some a)
if-eq-some true m h = (refl, h)
if-eq-some false m h = absurd (cc)

-- Two counts of nothing are found equal.
both_zero : {A : Type 0} (m n : ℕ) (x y : A) → m ≡ 0 → n ≡ 0 → (if nat_eq m n then x else y) ≡ x
both_zero m n x y h k = ground arith

step-IsSingle :
    (paths : List String) (s t : State) (e : Event)
    → step paths s e ≡ some t
    → IsSingle s
    → IsSingle t
unfolding step
step-IsSingle paths s t ctx_ends h v =
    subst IsSingle (Option.some-injective _ _ h)
      (record { blind = v.blind; single = v.single; kept = v.kept })
step-IsSingle paths s t (moves e) h v =
    let (may, moved) = if-eq-some (may_move s.ended e) _ h in
    serve-IsSingle s t e (may_move-kept s.ended e may) moved v
step-IsSingle paths s t (ticks stat) h v =
    let e = tick stat (is_looping s.serve.main) in
    let b = watched-IsBlind paths s.watcher e v.blind in
    subst IsSingle
      (Option.some-injective _ _ (
        sym
          (both_zero (watch_step paths s.watcher e).sent s.watcher.sent _ _ b.silent v.blind.silent)
        ∙ h))
      (with_watcher-IsSingle s _ b v)
step-IsSingle paths s t watch_ends h v =
    let (may, moved) = if-eq-some (s.ended || not (is_looping s.serve.main)) _ h in
    subst IsSingle (Option.some-injective _ _ moved)
      (with_watcher-IsSingle s _ (watched-IsBlind paths s.watcher cancelled v.blind) v)
step-IsSingle paths s t (channel_closed e) h v =
    let (may, moved) = if-eq-some s.watcher.closed _ h in
    serve-IsSingle s t (Serve.Event.watch_closed e) refl moved v

run-IsSingle :
    (paths : List String) (s t : State) (events : List Event)
    → run paths s events ≡ some t
    → IsSingle s
    → IsSingle t
unfolding run
run-IsSingle paths s t [] h v = subst IsSingle (Option.some-injective _ _ h) v
run-IsSingle paths s t (e ∷ events) h v = elim (Option-cases (step paths s e)) [
  | inl stuck ↦ cc (rw (stuck, run) at h)
  | inr (u, moved) ↦
      run-IsSingle paths u t events (rw (moved, run) at h) (step-IsSingle paths s u e moved v)
]

-- However the TLS files change while the server runs, it is never restarted: there is the one server
-- that was launched first, none has been shut down, and no notification was sent.
pub run-one_server :
    (paths : List String) (stat : Stat) (events : List Event) (t : State)
    → run paths (start paths stat) events ≡ some t
    → (length t.serve.servers ≡ 1) × (t.serve.shutdowns ≡ 0) × (t.watcher.sent ≡ 0)
run-one_server paths stat events t h =
    let v = run-IsSingle paths (start paths stat) t events h (start-IsSingle paths stat) in
    (v.single, v.kept, v.blind.silent)
