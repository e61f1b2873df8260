-- ===== src/Webhook/Watch/Laws.antt =====
-- The watch on the TLS files never notifies.
use cel_admission_webhook.Common.{
  String, ◌≡◌, refl, Bool, true, false, ◌||◌, some, List, [], ◌∷◌, arith, ◌==◌, eq_iff,
  if◌then◌else◌, any,
}
use cel_admission_webhook.Common.Dict.{Dict, lookup, insert, lookup-insert}
use cel_admission_webhook.Webhook.Watch.{
  Info, Stat, info_of, stat_paths, get_infos, deep_equal, Watcher, Event, cancelled, tick, start,
  compare_infos, live_step, watch_step, watch,
}

stat_paths-res :
    (paths : List String) (stat : Stat) (infos res : Dict Info)
    → (stat_paths paths stat infos res).1 ≡ res
unfolding stat_paths
stat_paths-res [] stat infos res = refl
stat_paths-res (v ∷ paths) stat infos res =
    stat_paths-res paths stat (insert v (info_of (stat v)) infos) res

-- A path is among the watched ones.
abbrev pub is_watched : String → List String → Bool
is_watched p paths = any (λ v. v == p) paths

stat_paths-infos :
    (paths : List String) (stat : Stat) (infos res : Dict Info) (p : String)
    → lookup p (stat_paths paths stat infos res).0
      ≡ (if is_watched p paths then some (info_of (stat p)) else lookup p infos)
unfolding stat_paths
stat_paths-infos [] stat infos res p = refl
stat_paths-infos (v ∷ paths) stat infos res p = ground (
  arith,
  stat_paths-infos paths stat (insert v (info_of (stat v)) infos) res p,
  lookup-insert v p (info_of (stat v)) infos,
  eq_iff v p,
)

-- What a call of `getInfos` sees goes into the captured map, at each watched path, and the map that
-- it returns is always empty.
pub get_infos_lem :
    (paths : List String) (stat : Stat) (infos : Dict Info)
    → ((p : String)
        → lookup p (get_infos paths stat infos).0
          ≡ (if is_watched p paths then some (info_of (stat p)) else lookup p infos))
      × ((get_infos paths stat infos).1 ≡ [])
unfolding get_infos
get_infos_lem paths stat infos =
    (stat_paths-infos paths stat infos [], stat_paths-res paths stat infos [])

pub record IsBlind (w : Watcher) (closed : Bool) : Type 0 where
  pub last : w.last_infos ≡ []
  pub silent : w.sent ≡ 0
  pub open_until : w.closed ≡ closed

abbrev pub is_cancelled : Event → Bool
is_cancelled cancelled = true
is_cancelled (tick stat waiting) = false

deep_equal-nil : deep_equal [] [] ≡ true
unfolding deep_equal
deep_equal-nil = refl

pub watch_step-IsBlind :
    (paths : List String) (w : Watcher) (closed : Bool) (e : Event)
    → IsBlind w closed
    → IsBlind (watch_step paths w e) (closed || is_cancelled e)
unfolding watch_step live_step compare_infos
watch_step-IsBlind paths w closed cancelled b = ground arith
watch_step-IsBlind paths w closed (tick stat waiting) b =
    ground (arith, (get_infos_lem paths stat w.infos).1, deep_equal-nil)

watch-IsBlind :
    (paths : List String) (w : Watcher) (closed : Bool) (events : List Event)
    → IsBlind w closed
    → IsBlind (watch paths w events) (closed || any is_cancelled events)
unfolding watch
watch-IsBlind paths w closed [] b = ground arith
watch-IsBlind paths w closed (e ∷ events) b = ground (
  arith,
  watch-IsBlind paths (watch_step paths w e) (closed || is_cancelled e) events
      (watch_step-IsBlind paths w closed e b),
)

pub start-IsBlind : (paths : List String) (stat : Stat) → IsBlind (start paths stat) false
unfolding start
start-IsBlind paths stat = record {
  last = (get_infos_lem paths stat []).1;
  silent = refl;
  open_until = refl;
}

-- Whatever happens to the files, and however the loop listens, the watch sends no notification; all
-- that its reader ever sees is the channel closed, exactly once the context is cancelled.
pub watch-start-silent :
    (paths : List String) (stat : Stat) (events : List Event)
    → ((watch paths (start paths stat) events).sent ≡ 0)
      × ((watch paths (start paths stat) events).closed ≡ any is_cancelled events)
watch-start-silent paths stat events =
    let b = watch-IsBlind paths (start paths stat) false events (start-IsBlind paths stat) in
    (b.silent, b.open_until)
