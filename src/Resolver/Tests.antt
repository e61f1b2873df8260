-- ===== src/Resolver/Tests.antt =====
-- Tests and instances for Resolver.antt: a CRD that defines widgets.
use cel_admission_webhook.Common.{String, ◌≡◌, refl, ◌≢◌, none, some, [], ◌∷◌, arith, eq_iff}
use cel_admission_webhook.Kinds.{GroupVersionKind, group_kind}
use cel_admission_webhook.Resolver.{
  Crd, added, updated, CacheEntry, SchemaCache, lookup, purge, handle_crd,
}
use cel_admission_webhook.Resolver.Laws.{handle_crd-keeps}
use cel_admission_webhook.Resolver.History.{fills, handles, run, lookup-run}

abbrev widgets : GroupVersionKind
widgets = record { group = "example.com"; version = "v1"; kind = "Widget" }

abbrev widgets_crd : Crd
widgets_crd = record {
  object_kind = record {
    group = "apiextensions.k8s.io";
    version = "v1";
    kind = "CustomResourceDefinition";
  };
  spec_group = "example.com";
  spec_kind = "Widget";
}

abbrev old_answer : GroupVersionKind → CacheEntry String
old_answer k = record { error = none; schema = some "one field" }

abbrev new_answer : GroupVersionKind → CacheEntry String
new_answer k = record { error = none; schema = some "two fields" }

abbrev warm : SchemaCache String
warm = (widgets, old_answer widgets) ∷ []

test_stale :
    lookup widgets (handle_crd (updated widgets_crd widgets_crd) warm) ≡ some (old_answer widgets)
unfolding handle_crd lookup purge
test_stale = refl

test_purged : lookup widgets (purge (group_kind widgets) warm) ≡ none
unfolding lookup purge
test_purged = refl

kinds_differ : group_kind widgets ≢ group_kind widgets_crd.object_kind
kinds_differ = ground (arith, eq_iff "example.com" "apiextensions.k8s.io")

handle_crd-keeps_example :
    lookup widgets (handle_crd (updated widgets_crd widgets_crd) warm) ≡ lookup widgets warm
handle_crd-keeps_example =
    handle_crd-keeps (updated widgets_crd widgets_crd) widgets warm (kinds_differ, kinds_differ)

lookup-run_example :
    lookup widgets (run [] (fills widgets old_answer ∷ handles (added widgets_crd) ∷ []))
    ≡ some (old_answer widgets)
unfolding lookup
lookup-run_example =
    lookup-run widgets (fills widgets old_answer ∷ handles (added widgets_crd) ∷ []) []
