-- ===== src/Webhook/Serve/Invariant.antt =====
-- The invariant of the serving loop.
use cel_admission_webhook.Common.{
  ℕ, zero, suc, ◌+◌, ◌≡◌, refl, ◌⊎◌, inl, inr, none, some, List, [], ◌∷◌, arith, All, Option-cases,
  subst,
}
use mathlib.Core.Option
use cel_admission_webhook.Common.Errors.{Error}
use cel_admission_webhook.Webhook.Serve.{
  Server, serving, sending, finishing, done, Main, looping, waiting, returned, State, Event,
  ctx_done, receive_error, watch_closed, restart, listen_returns, goroutine_ends, shutdown_ends,
  wait_returns, start, leave, receive, relaunch, update_at, listen_result, end_goroutine,
  finish_wait, step, run,
}

-- Nothing has been received from the server.
abbrev pub IsUnread : Server → Type 0
IsUnread serving = Unit
IsUnread (sending e) = Unit
IsUnread (finishing e) = ⊥
IsUnread (done e) = ⊥

-- The current server once the loop has left with `e`.
abbrev pub IsLeft : Error → Server → Type 0
IsLeft e x = IsUnread x ⊎ (x ≡ finishing e) ⊎ (x ≡ done e)

abbrev pub Shape : Main → List Server → Type 0
Shape looping [] = ⊥
Shape looping (x ∷ older) = IsUnread x × All IsUnread older
Shape (waiting e) [] = ⊥
Shape (waiting e) (x ∷ older) = IsLeft e x × All IsUnread older
Shape (returned e) [] = ⊥
Shape (returned e) (x ∷ []) = x ≡ done e
Shape (returned e) (x ∷ y ∷ older) = ⊥

abbrev pub running : Main → ℕ
running looping = 1
running (waiting e) = 0
running (returned e) = 0

-- What a goroutine still holds of the WaitGroup.
abbrev pub held : Server → ℕ
held serving = 1
held (sending e) = 1
held (finishing e) = 1
held (done e) = 0

abbrev pub held_by : List Server → ℕ
held_by [] = 0
held_by (x ∷ xs) = held x + held_by xs

-- The WaitGroup counts what runs, and the servers have the shape of the loop's state.
pub record Inv (s : State) : Type 0 where
  pub counted : s.wg ≡ running s.main + held_by s.servers + s.shutdowns
  pub shape : Shape s.main s.servers

pub start-Inv : Inv start
unfolding start
start-Inv = ground arith

module _ (e : Error) where
  listen-held_by :
      (n : ℕ) (xs ys : List Server)
      → update_at n (listen_result e) xs ≡ some ys
      → held_by ys ≡ held_by xs
  unfolding update_at listen_result
  listen-held_by n [] ys h = cc
  listen-held_by zero (serving ∷ xs) ys h = ground arith
  listen-held_by zero (x ∷ xs) ys h = cc
  listen-held_by (suc n) (x ∷ xs) ys h =
      let (zs, found, same) = (Option.map-eq-some_iff _ _).0 h in
      rw (← same) (omega (arith, listen-held_by n xs zs found))

  pub listen-IsUnread :
      (n : ℕ) (xs ys : List Server)
      → update_at n (listen_result e) xs ≡ some ys
      → All IsUnread xs
      → All IsUnread ys
  unfolding update_at listen_result
  listen-IsUnread n [] ys h a = cc
  listen-IsUnread zero (serving ∷ xs) ys h a =
      subst (All IsUnread) (Option.some-injective _ _ h) (tt, a.1)
  listen-IsUnread zero (x ∷ xs) ys h a = cc
  listen-IsUnread (suc n) (x ∷ xs) ys h a =
      let (zs, found, same) = (Option.map-eq-some_iff _ _).0 h in
      rw (← same) (a.0, listen-IsUnread n xs zs found a.1)

  listen-Shape :
      (n : ℕ) (m : Main) (xs ys : List Server)
      → update_at n (listen_result e) xs ≡ some ys
      → Shape m xs
      → Shape m ys
  unfolding update_at listen_result
  listen-Shape n m [] ys h s = cc
  listen-Shape zero looping (serving ∷ xs) ys h s =
      subst (Shape looping) (Option.some-injective _ _ h) (tt, s.1)
  listen-Shape zero (waiting r) (serving ∷ xs) ys h s =
      subst (Shape (waiting r)) (Option.some-injective _ _ h) (inl tt, s.1)
  listen-Shape zero (returned r) (serving ∷ []) ys h s = cc
  listen-Shape zero (returned r) (serving ∷ y ∷ xs) ys h s = absurd s
  listen-Shape zero m (x ∷ xs) ys h s = cc
  listen-Shape (suc n) looping (x ∷ xs) ys h s =
      let (zs, found, same) = (Option.map-eq-some_iff _ _).0 h in
      subst (Shape looping) same (s.0, listen-IsUnread n xs zs found s.1)
  listen-Shape (suc n) (waiting r) (x ∷ xs) ys h s =
      let (zs, found, same) = (Option.map-eq-some_iff _ _).0 h in
      subst (Shape (waiting r)) same (s.0, listen-IsUnread n xs zs found s.1)
  listen-Shape (suc n) (returned r) (x ∷ []) ys h s = cc
  listen-Shape (suc n) (returned r) (x ∷ y ∷ xs) ys h s = absurd s

end-held_by :
    (n : ℕ) (xs ys : List Server)
    → update_at n end_goroutine xs ≡ some ys
    → held_by xs ≡ suc (held_by ys)
unfolding update_at end_goroutine
end-held_by n [] ys h = cc
end-held_by zero (finishing e ∷ xs) ys h = ground arith
end-held_by zero (x ∷ xs) ys h = cc
end-held_by (suc n) (x ∷ xs) ys h =
    let (zs, found, same) = (Option.map-eq-some_iff _ _).0 h in
    rw (← same) (omega (arith, end-held_by n xs zs found))

pub end-IsUnread :
    (n : ℕ) (xs : List Server) → All IsUnread xs → update_at n end_goroutine xs ≡ none
unfolding update_at end_goroutine
end-IsUnread n [] a = refl
end-IsUnread zero (serving ∷ xs) a = refl
end-IsUnread zero (sending e ∷ xs) a = refl
end-IsUnread zero (x ∷ xs) a = absurd a.0
end-IsUnread (suc n) (x ∷ xs) a = rw (end-IsUnread n xs a.1)

end-Shape :
    (n : ℕ) (m : Main) (xs ys : List Server)
    → update_at n end_goroutine xs ≡ some ys
    → Shape m xs
    → Shape m ys
unfolding update_at end_goroutine
end-Shape n m [] ys h s = cc
end-Shape n looping (x ∷ xs) ys h s = cc (end-IsUnread n (x ∷ xs) s)
end-Shape zero (waiting r) (finishing e ∷ xs) ys h s =
    subst (Shape (waiting r)) (Option.some-injective _ _ h) (ground arith, s.1)
end-Shape zero (returned r) (finishing e ∷ []) ys h s = cc
end-Shape zero (returned r) (finishing e ∷ y ∷ xs) ys h s = absurd s
end-Shape zero m (x ∷ xs) ys h s = cc
end-Shape (suc n) (waiting r) (x ∷ xs) ys h s = cc (end-IsUnread n xs s.1)
end-Shape (suc n) (returned r) (x ∷ []) ys h s = cc
end-Shape (suc n) (returned r) (x ∷ y ∷ xs) ys h s = absurd s

left-Shape : (e : Error) (xs : List Server) → Shape looping xs → Shape (waiting e) xs
left-Shape e [] s = s
left-Shape e (x ∷ xs) s = (inl s.0, s.1)

leave-Inv : (s t : State) (e : Error) → leave s s.main e ≡ some t → Inv s → Inv t
unfolding leave
leave-Inv s t e h v = ground (arith, left-Shape e s.servers)

receive-Inv : (s t : State) → receive s s.main s.servers ≡ some t → Inv s → Inv t
unfolding receive
receive-Inv s t h v = ground arith

relaunch-Inv : (s t : State) → relaunch s s.main ≡ some t → Inv s → Inv t
unfolding relaunch
relaunch-Inv s t h v = ground arith

finish_wait-Inv : (s t : State) → finish_wait s s.main ≡ some t → Inv s → Inv t
unfolding finish_wait
finish_wait-Inv s t h v = ground arith

-- Every event keeps the invariant.
pub step-Inv : (s t : State) (e : Event) → step s e ≡ some t → Inv s → Inv t
unfolding step
step-Inv s t (ctx_done e) h v = leave-Inv s t e h v
step-Inv s t receive_error h v = receive-Inv s t h v
step-Inv s t (watch_closed e) h v = leave-Inv s t e h v
step-Inv s t restart h v = relaunch-Inv s t h v
step-Inv s t (listen_returns n e) h v =
    let (ys, found, same) = (Option.map-eq-some_iff _ _).0 h in
    let kept = listen-Shape e n s.main s.servers ys found v.shape in
    let held' = listen-held_by e n s.servers ys found in
    subst Inv same (record { counted = omega arith; shape = kept })
step-Inv s t (goroutine_ends n) h v =
    let (ys, found, same) = (Option.map-eq-some_iff _ _).0 h in
    let kept = end-Shape n s.main s.servers ys found v.shape in
    let held' = end-held_by n s.servers ys found in
    subst Inv same (record { counted = omega arith; shape = kept })
step-Inv s t shutdown_ends h v = ground arith
step-Inv s t wait_returns h v = finish_wait-Inv s t h v

pub run-Inv : (s t : State) (events : List Event) → run s events ≡ some t → Inv s → Inv t
unfolding run
run-Inv s t [] h v = subst Inv (Option.some-injective _ _ h) v
run-Inv s t (e ∷ events) h v = elim (Option-cases (step s e)) [
  | inl stuck ↦ cc (rw (stuck, run) at h)
  | inr (u, moved) ↦ run-Inv u t events (rw (moved, run) at h) (step-Inv s u e moved v)
]
