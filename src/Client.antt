-- ===== src/Client.antt =====
-- The client that is put before a custom resource: pkg/controller/transformed_client.go over the
-- interface of pkg/controller/client.go (here), and the conversions and the wrapping of
-- injected_client.go (Convert).
pub mod Laws
pub mod Watching
pub mod Reading
pub mod Convert
mod Tests
use cel_admission_webhook.Common.{
  ℕ, String, Bool, true, false, Option, none, some, List, [], ◌∷◌, ◌++◌, Option-cases,
}
use cel_admission_webhook.Common.Errors.{Error, Result, ok, err, ◌>>=◌}

-- A list object of items `A`, as the reflection in `getItems` and `listWithItems` sees it: its type
-- and list metadata, and its field `Items`, nil or a slice.
pub record ListMeta : Type 0 where
  pub resource_version : String
  pub continue : String

pub record ListObject (A : Type 0) : Type 0 where
  pub kind : String
  pub api_version : String
  pub list_meta : ListMeta
  pub items : Option (List A)

-- A watch event: its type, and an object that is of the expected type or any other.
pub data Watched (A : Type 0) : Type 0 where
  of_type : A → Watched A
  foreign : ℕ → Watched A

pub record WatchEvent (A : Type 0) : Type 0 where
  pub event_type : String
  pub object : Watched A

-- How a call ends: it answers, or it panics with a text.
pub data Called (B : Type 0) : Type 0 where
  answered : B → Called B
  panicked : String → Called B

-- A call of a client: what it answers, and the server's state afterwards. `ClientInterface` with
-- `UpdateStatus`; the contexts and options of the calls are the parameter `Options`.
pub record ClientInterface (Options S A : Type 0) : Type 0 where
  pub create : A → Options → S → Result A × S
  pub update : A → Options → S → Result A × S
  pub update_status : A → Options → S → Result A × S
  pub delete : String → Options → S → Option Error × S
  pub delete_collection : Options → Options → S → Option Error × S
  pub get : String → Options → S → Result A × S
  pub list : Options → S → Result (ListObject A) × S
  pub watch : Options → S → Result (List (WatchEvent A)) × S
  pub patch : String → String → List ℕ → Options → List String → S → Called (Result A) × S

-- `reflect.New` of a list type.
abbrev pub zero_list : {A : Type 0} → ListObject A
zero_list = record {
  kind = "";
  api_version = "";
  list_meta = record { resource_version = ""; continue = "" };
  items = none;
}

-- `listWithItems`
unfoldable pub list_with_items : {A : Type 0} → List A → ListObject A
list_with_items items = record zero_list { items = some items }

-- `getItems`
unfoldable pub get_items : {A : Type 0} → ListObject A → List A
get_items l = elim l.items [ none ↦ [] | some items ↦ items ]

-- The loop over the items: the first conversion that fails ends it.
unfoldable pub convert_items : {R T : Type 0} → (R → Result T) → List R → Result (List T)
convert_items to [] = ok []
convert_items to (v ∷ items) = do
  converted ← to v
  rest ← convert_items to items
  ok (converted ∷ rest)

module _ {Options S T R : Type 0} (replacement : ClientInterface Options S R) (to : R → Result T)
    (from : T → Result R) where
  -- The end of the calls that answer one object.
  abbrev convert_answer : Result R × S → Result T × S
  convert_answer (answer, s) = (answer >>= to, s)

  -- The shape of `Create`, `Update` and `UpdateStatus`: nothing is sent if the object does not
  -- convert.
  unfoldable pub send : (R → Options → S → Result R × S) → T → Options → S → Result T × S
  send call object opts s = elim (from object) [
    | err e ↦ (err e, s)
    | ok converted ↦ convert_answer (call converted opts s)
  ]

  abbrev convert_list : Result (ListObject R) → Result (ListObject T)
  convert_list answer = do
    value ← answer
    items ← convert_items to (get_items value)
    ok (list_with_items items)

  -- The function that `Watch` hands to `watch.Filter`, on a list of events.
  filter_event : WatchEvent R → Watched R → List (WatchEvent T)
  filter_event event (foreign n) = record { event_type = event.event_type; object = foreign n } ∷ []
  filter_event event (of_type r) = elim (to r) [
    | err e ↦ []
    | ok converted ↦ record { event_type = event.event_type; object = of_type converted } ∷ []
  ]

  unfoldable pub filter_events : List (WatchEvent R) → List (WatchEvent T)
  unfolding filter_event
  filter_events [] = []
  filter_events (event ∷ events) = filter_event event event.object ++ filter_events events

  unfoldable pub transformed_client : ClientInterface Options S T
  unfolding send filter_events list_with_items get_items convert_items
  transformed_client = record {
    create = send replacement.create;
    update = send replacement.update;
    update_status = send replacement.update_status;
    delete = replacement.delete;
    delete_collection = replacement.delete_collection;
    get = λ name opts s. convert_answer (replacement.get name opts s);
    list = λ opts s. let (answer, s') = replacement.list opts s in (convert_list answer, s');
    watch = λ opts s.
        let (answer, s') = replacement.watch opts s in
        ((do events ← answer; ok (filter_events events)), s');
    patch = λ name pt data' opts subresources s. (panicked "transform patch unsupported", s);
  }
