-- ===== src/Main/Startup/Spawn.antt =====
-- The goroutines that `main` of cmd/cel-admission-webhook/main.go starts.
use cel_admission_webhook.Common.{
  ℕ, suc, ◌≡◌, refl, ap, Bool, true, false, List, [], ◌∷◌, if◌then◌else◌,
}

-- The goroutines of `main`: the refresh of the REST mapper, one for each runnable validator, and the
-- webhook.
pub data Goroutine (V : Type 0) : Type 0 where
  refresher : Goroutine V
  worker : V → Goroutine V
  server : Goroutine V

-- The goroutines, the last one first, and the WaitGroup.
pub record Process (V : Type 0) : Type 0 where
  pub goroutines : List (Goroutine V)
  pub wg : ℕ

module _ {V : Type 0} where
  -- `go` alone, and after `waitGroup.Add(1)`.
  abbrev pub go : Goroutine V → Process V → Process V
  go g p = record p { goroutines = g ∷ p.goroutines }

  abbrev pub add_and_go : Goroutine V → Process V → Process V
  add_and_go g p = record { goroutines = g ∷ p.goroutines; wg = suc p.wg }

  -- The loop over the validators; `runs` is the assertion `v.(runnable)`.
  unfoldable pub spawn_workers : (V → Bool) → List V → Process V → Process V
  spawn_workers runs [] p = p
  spawn_workers runs (v ∷ vs) p =
      spawn_workers runs vs (if runs v then add_and_go (worker v) p else p)

  -- All goroutines of `main`.
  unfoldable pub spawn : (V → Bool) → List V → Process V
  unfolding spawn_workers
  spawn runs vs =
      add_and_go server (spawn_workers runs vs (go refresher (record { goroutines = []; wg = 0 })))

  -- The goroutines that call `waitGroup.Done()` when they end.
  abbrev pub signals_end : List (Goroutine V) → ℕ
  signals_end [] = 0
  signals_end (refresher ∷ gs) = signals_end gs
  signals_end (worker v ∷ gs) = suc (signals_end gs)
  signals_end (server ∷ gs) = suc (signals_end gs)

  spawn_workers-counted :
      (runs : V → Bool) (vs : List V) (p : Process V)
      → p.wg ≡ signals_end p.goroutines
      → (spawn_workers runs vs p).wg ≡ signals_end (spawn_workers runs vs p).goroutines
  unfolding spawn_workers
  spawn_workers-counted runs [] p h = h
  spawn_workers-counted runs (v ∷ vs) p h =
      elim (runs v)
        as (λ b.
          let q = if b then add_and_go (worker v) p else p in
          (spawn_workers runs vs q).wg ≡ signals_end (spawn_workers runs vs q).goroutines) [
            | true ↦ spawn_workers-counted runs vs (add_and_go (worker v) p) (ap suc h)
            | false ↦ spawn_workers-counted runs vs p h
          ]

  -- The WaitGroup of `main` counts the goroutines that signal their end.
  pub spawn-counted :
      (runs : V → Bool) (vs : List V) → (spawn runs vs).wg ≡ signals_end (spawn runs vs).goroutines
  unfolding spawn
  spawn-counted runs vs =
      ap suc
        (spawn_workers-counted runs vs (go refresher (record { goroutines = []; wg = 0 })) refl)
