-- ===== src/Webhook/Watch.antt =====
-- `notifyChanges` of pkg/webhook/server.go: the watch on the TLS files. Time is the ticks that the
-- environment sends; a tick comes with what `os.Stat` answers then, and with whether the serving
-- loop is waiting on the channel, for a send that would block is dropped.
pub mod Laws
mod Tests
use cel_admission_webhook.Common.{
  ℕ, suc, ◌+◌, String, Bool, true, false, ◌&&◌, Option, none, some, List, [], ◌∷◌, ◌==◌, nat_eq,
  if◌then◌else◌, length, all,
}
use cel_admission_webhook.Common.Errors.{Error, Result, ok, err}
use cel_admission_webhook.Common.Dict.{Dict, lookup, insert}

-- `info`, with a time as a number and the zero time 0.
pub record Info : Type 0 where
  pub mod_time : ℕ
  pub error : String

abbrev pub Stat : Type 0
Stat = String → Result ℕ

abbrev pub info_of : Result ℕ → Info
info_of (ok time) = record { mod_time = time; error = "" }
info_of (err e) = record { mod_time = 0; error = e.message }

-- The loop of `getInfos`. It has two maps: `infos`, captured from `notifyChanges`, and its own
-- `res`; each round writes the first.
stat_paths : List String → Stat → Dict Info → Dict Info → Dict Info × Dict Info
stat_paths [] stat infos res = (infos, res)
stat_paths (v ∷ paths) stat infos res =
    stat_paths paths stat (insert v (info_of (stat v)) infos) res

-- `getInfos`: the captured map afterwards, and the map returned.
unfoldable pub get_infos : List String → Stat → Dict Info → Dict Info × Dict Info
unfolding stat_paths
get_infos paths stat infos = stat_paths paths stat infos []

abbrev info_eq : Option Info → Info → Bool
info_eq none b = false
info_eq (some a) b = nat_eq a.mod_time b.mod_time && a.error == b.error

agree : Dict Info → Dict Info → Bool
agree [] n = true
agree ((k, v) ∷ m) n = info_eq (lookup k n) v && agree m n

-- `reflect.DeepEqual` on the maps.
deep_equal : Dict Info → Dict Info → Bool
unfolding agree lookup
deep_equal m n = nat_eq (length m) (length n) && agree m n

-- The goroutine's variables, the notifications sent and whether the channel is closed.
pub record Watcher : Type 0 where
  pub infos : Dict Info
  pub last_infos : Dict Info
  pub sent : ℕ
  pub closed : Bool

pub data Event : Type 0 where
  cancelled : Event
  tick : Stat → (receiver_waiting : Bool) → Event

-- `lastInfos := getInfos()`
unfoldable pub start : List String → Stat → Watcher
unfolding get_infos
start paths stat =
    let (infos, res) = get_infos paths stat [] in
    record { infos = infos; last_infos = res; sent = 0; closed = false }

-- A tick of the loop, with the map that `getInfos` returned.
compare_infos : Watcher → Dict Info → Dict Info → Bool → Watcher
unfolding deep_equal
compare_infos w infos new_infos waiting =
    if deep_equal w.last_infos new_infos then record w { infos = infos } else record w {
      infos = infos;
      last_infos = new_infos;
      sent = if waiting then w.sent + 1 else w.sent;
    }

live_step : List String → Watcher → Event → Watcher
unfolding compare_infos get_infos
live_step paths w cancelled = record w { closed = true }
live_step paths w (tick stat waiting) =
    let (infos, new_infos) = get_infos paths stat w.infos in compare_infos w infos new_infos waiting

-- The goroutine has returned once the channel is closed.
unfoldable pub watch_step : List String → Watcher → Event → Watcher
unfolding live_step
watch_step paths w event = if w.closed then w else live_step paths w event

unfoldable pub watch : List String → Watcher → List Event → Watcher
unfolding watch_step
watch paths w [] = w
watch paths w (e ∷ events) = watch paths (watch_step paths w e) events
