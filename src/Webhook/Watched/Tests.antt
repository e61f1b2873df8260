-- ===== src/Webhook/Watched/Tests.antt =====
-- A run of the server whose certificate changes.
use cel_admission_webhook.Common.{ℕ, ◌≡◌, refl, String, true, some, List, [], ◌∷◌, length}
use cel_admission_webhook.Common.Errors.{Error, errorf, ok}
use cel_admission_webhook.Webhook.Serve
use cel_admission_webhook.Webhook.Watch
use cel_admission_webhook.Webhook.Watch.{Stat}
use cel_admission_webhook.Webhook.Watched.{
  State, Event, ctx_ends, moves, ticks, watch_ends, start, step, run,
}
use cel_admission_webhook.Webhook.Watched.Laws.{run-one_server}

abbrev files : List String
files = "server.pem" ∷ "server-key.pem" ∷ []

abbrev changed_at : ℕ → Stat
changed_at time path = ok time

abbrev done_error : Error
done_error = errorf "context canceled"

-- Both files change, then the context ends.
abbrev changes : List Event
changes =
    ticks (changed_at 1)
    ∷ ticks (changed_at 2)
    ∷ ctx_ends
    ∷ moves (Serve.Event.ctx_done done_error)
    ∷ watch_ends
    ∷ []

abbrev leaving : Serve.State
leaving = record {
  main = Serve.Main.waiting done_error;
  servers = Serve.Server.serving ∷ [];
  shutdowns = 0;
  wg = 1;
}

abbrev last : State
last = record {
  serve = leaving;
  watcher =
      Watch.watch files (Watch.start files (changed_at 0))
        (Watch.tick (changed_at 1) true ∷ Watch.tick (changed_at 2) true ∷ Watch.cancelled ∷ []);
  ended = true;
}

ran : run files (start files (changed_at 0)) changes ≡ some last
unfolding run start step Serve.step Serve.start Watch.watch Watch.watch_step Watch.start
ran = refl

run-one_server_example :
    (length last.serve.servers ≡ 1) × (last.serve.shutdowns ≡ 0) × (last.watcher.sent ≡ 0)
run-one_server_example = run-one_server files (changed_at 0) changes last ran
