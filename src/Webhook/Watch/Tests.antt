-- ===== src/Webhook/Watch/Tests.antt =====
-- Tests and instances for Webhook/Watch.antt: a certificate that is replaced between two ticks.
use cel_admission_webhook.Common.{String, ◌≡◌, refl, true, some, List, [], ◌∷◌, ◌==◌, if◌then◌else◌}
use cel_admission_webhook.Common.Errors.{ok, err, errorf}
use cel_admission_webhook.Common.Dict.{lookup, insert}
use cel_admission_webhook.Webhook.Watch.{Stat, Event, cancelled, tick, get_infos, start, watch}
use cel_admission_webhook.Webhook.Watch.Laws.{watch-start-silent}

abbrev tls_files : List String
tls_files = "server.pem" ∷ "server-key.pem" ∷ []

abbrev before : Stat
before path = ok 10

abbrev after : Stat
after path = if path == "server.pem" then ok 20 else err (errorf "no such file")

abbrev history : List Event
history = tick before true ∷ tick after true ∷ cancelled ∷ []

test_seen :
    lookup "server.pem" (watch tls_files (start tls_files before) history).infos
    ≡ some (record { mod_time = 20; error = "" })
unfolding watch start get_infos lookup insert
test_seen = refl

watch-start-silent_example : (watch tls_files (start tls_files before) history).sent ≡ 0
watch-start-silent_example = (watch-start-silent tls_files before history).0
