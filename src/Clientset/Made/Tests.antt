-- ===== src/Clientset/Made/Tests.antt =====
-- A tracker of names that takes no name twice.
use cel_admission_webhook.Common.{
  ℕ, ◌≡◌, refl, String, Bool, true, false, List, [], ◌∷◌, ◌==◌, if◌then◌else◌,
}
use cel_admission_webhook.Common.Errors.{ok, err, errorf}
use cel_admission_webhook.Clientset.Made.{
  TrackerCalls, returned, panicked, clientset_of, new_simple_clientset, add_each,
}
use cel_admission_webhook.Clientset.Made.Laws.{IsMade, new_simple_clientset-IsMade}

abbrev holds : String → List String → Bool
holds name [] = false
holds name (other ∷ names) = if name == other then true else holds name names

abbrev names : TrackerCalls String (List String) ℕ ℕ
names = record {
  new_object_tracker = [];
  add = λ name held. if holds name held then err (errorf "already exists") else ok (name ∷ held);
  watch = λ gvr ns held. ok 1;
  object_reaction = λ held. 2;
}

taken : new_simple_clientset names ("a" ∷ "b" ∷ []) ≡ returned (clientset_of names ("b" ∷ "a" ∷ []))
unfolding new_simple_clientset add_each
taken = refl

refused : new_simple_clientset names ("a" ∷ "a" ∷ []) ≡ panicked (errorf "already exists")
unfolding new_simple_clientset add_each
refused = refl

new_simple_clientset-IsMade_example :
    IsMade names ("a" ∷ "b" ∷ []) (new_simple_clientset names ("a" ∷ "b" ∷ []))
new_simple_clientset-IsMade_example = new_simple_clientset-IsMade names ("a" ∷ "b" ∷ [])
