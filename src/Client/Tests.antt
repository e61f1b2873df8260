-- ===== src/Client/Tests.antt =====
-- Concrete clients for Client.antt and Client/Convert.antt, tests and instances. A server holds one
-- object; an object is its API version.
use cel_admission_webhook.Common.{
  ℕ, String, ◌≡◌, refl, ◌≢◌, ◌↔◌, ◌⊎◌, none, some, List, [], ◌∷◌, ◌==◌, if◌then◌else◌,
}
use cel_admission_webhook.Common.Errors.{errorf, Result, ok, err}
use cel_admission_webhook.Client.{
  ListObject, of_type, foreign, WatchEvent, ClientInterface, answered, panicked, zero_list,
  get_items, filter_events, transformed_client,
}
use mathlib.Core.List.Memᴰ.{head}
use cel_admission_webhook.Client.Reading.{IsRead, by_list}
use cel_admission_webhook.Client.Laws.{Converted, transformed_client-Sends, transformed_client-list}
use cel_admission_webhook.Client.Watching.{Seen, filter_events_iff}
use cel_admission_webhook.Client.Convert.{
  Codec, crd_to_native_policy, AdmissionClient, KubeClient, Codecs, new_wrapped_client,
}
use cel_admission_webhook.Client.Convert.Laws.{
  Converts, conversions-Converts, new_wrapped_client-version,
}

abbrev stored_list : String → ListObject String
stored_list s = record {
  kind = "List";
  api_version = "v1";
  list_meta = record { resource_version = "42"; continue = "more" };
  items = some (s ∷ s ∷ []);
}

abbrev server : ClientInterface ℕ String String
server = record {
  create = λ a o s. (ok a, a);
  update = λ a o s. (ok a, a);
  update_status = λ a o s. (ok a, a);
  delete = λ n o s. (none, "");
  delete_collection = λ o l s. (none, "");
  get = λ n o s. (ok s, s);
  list = λ o s. (ok (stored_list s), s);
  watch = λ o s. (ok [], s);
  patch = λ n pt data' o subresources s. (answered (ok s), s);
}

abbrev rename : String → Result String
rename s = if s == "bad" then err (errorf "bad") else ok s

test_list :
    (transformed_client server rename rename).list 0 "x"
    ≡ (ok (record zero_list { items = some ("x" ∷ "x" ∷ []) }), "x")
unfolding transformed_client
test_list = refl

patched :
    (transformed_client server rename rename).patch "p" "json" [] 0 [] "x"
    ≡ (panicked "transform patch unsupported", "x")
unfolding transformed_client
patched = refl

sends : ((transformed_client server rename rename).create "x" 0 "y" ≡ (ok "x", "x")) ↔ (
    (r : String) × (r' : String) × (rename "x" ≡ ok r)
    × (server.create r 0 "y" ≡ (ok r', "x"))
    × (rename r' ≡ ok "x"))
sends = (transformed_client-Sends server rename rename).0 "x" 0 "y" "x" "x"

transformed_client-list_example :
    ((transformed_client server rename rename).list 0 "x" ≡ (ok zero_list, "x")) ↔ (
      (value : ListObject String) × (items : List String) × (server.list 0 "x" ≡ (ok value, "x"))
      × Converted rename (get_items value) items
      × (zero_list ≡ record zero_list { items = some items }))
transformed_client-list_example = transformed_client-list server rename rename 0 "x" "x" zero_list

abbrev events : List (WatchEvent String)
events =
    record { event_type = "ADDED"; object = of_type "bad" }
    ∷ record { event_type = "ERROR"; object = foreign 1 }
    ∷ []

abbrev delivered : List (WatchEvent String)
delivered = record { event_type = "ERROR"; object = foreign 1 } ∷ []

filter_events_iff_example :
    (filter_events server rename rename events ≡ delivered)
    ↔ Seen server rename rename events delivered
filter_events_iff_example = filter_events_iff server rename rename events delivered

-- Text is its own JSON.
abbrev text_codec : Codec String String
text_codec = record {
  Json = String;
  marshal = λ s. ok s;
  unmarshal = λ j. (j, none);
  version_of = λ s. s;
  with_version = λ v s. v;
}

converted :
    Converts text_codec "apiregistration.k8s.io/v1alpha1"
      (some "v")
      (crd_to_native_policy text_codec (some "v"))
converted = (conversions-Converts text_codec (some "v")).1

abbrev text_codecs : Codecs String String String String
text_codecs = record {
  policy_out = text_codec;
  policy_in = text_codec;
  binding_out = text_codec;
  binding_in = text_codec;
}

abbrev admission : AdmissionClient ℕ String String String
admission = record { policies = server; bindings = server }

abbrev kube : KubeClient ℕ String String String ℕ
kube = record { admission = admission; others = 0 }

abbrev stored_version : String
stored_version = "admissionregistration.x-k8s.io/v1alpha1"

abbrev read_version : String
read_version = "apiregistration.k8s.io/v1alpha1"

abbrev wrapped : ClientInterface ℕ String String
wrapped = (new_wrapped_client text_codecs kube admission).admission.policies

-- The stored policy in a listing.
listed : IsRead wrapped read_version
unfolding new_wrapped_client transformed_client crd_to_native_policy get_items
listed =
    by_list {opts = 0} {s = stored_version} {t = stored_version}
      {l = record zero_list { items = some (read_version ∷ read_version ∷ []) }} refl (head refl)

new_wrapped_client-version_example :
    ((read_version ≡ "") ⊎ (read_version ≡ "apiregistration.k8s.io/v1alpha1"))
    × (read_version ≢ "admissionregistration.k8s.io/v1alpha1")
new_wrapped_client-version_example =
    new_wrapped_client-version text_codecs kube admission (λ v c. refl) read_version listed
