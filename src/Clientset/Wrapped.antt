-- ===== src/Clientset/Wrapped.antt =====
-- The typed client of the policies as the replacement of pkg/controller/transformed_client.go, and
-- sequences of calls of a client.
pub mod Laws
use cel_admission_webhook.Common.{
  ◌≡◌, refl, ap, ◌∙◌, sym, Option, some, none, Bool, true, false, List, [], if◌then◌else◌,
  Bool-cases, ◌∷◌, ◌++◌, String, inl, inr,
}
use mathlib.Core.List
use cel_admission_webhook.Common.Errors.{Error, Result, ok, err, Result-cases}
use cel_admission_webhook.Client.{
  Called, answered, panicked, ClientInterface, ListObject, WatchEvent, transformed_client, send,
}
use cel_admission_webhook.Clientset.{
  ListOptions, get, list, watch, create, update, delete, delete_collection, patch, PolicyCall,
  plain, update_status,
}
use cel_admission_webhook.Clientset.Requests.{RestRequest, RestClient, policy_request, do_policy}

-- The options of a call: those of a list call, and those of any other.
pub record CallOptions (O : Type 0) : Type 0 where
  pub single : O
  pub lists : ListOptions O

-- The typed client as a ClientInterface.
unfoldable pub typed_client :
    {O S A : Type 0} → RestClient O S A → (A → String) → ClientInterface (CallOptions O) S A
unfolding do_policy
typed_client client name_of = record {
  create = λ a o s. do_policy client name_of (plain (create a o.single)) s;
  update = λ a o s. do_policy client name_of (plain (update a o.single)) s;
  update_status = λ a o s. do_policy client name_of (update_status a o.single) s;
  delete = λ name o s. do_policy client name_of (plain (delete name o.single)) s;
  delete_collection =
      λ o l s. do_policy client name_of (plain (delete_collection o.single l.lists)) s;
  get = λ name o s. do_policy client name_of (plain (get name o.single)) s;
  list = λ o s. do_policy client name_of (plain (list o.lists)) s;
  watch = λ o s. do_policy client name_of (plain (watch o.lists)) s;
  patch = λ name pt data' o subresources s.
      let (answer, s') =
        do_policy client name_of (plain (patch name pt data' o.single subresources)) s in
      (answered answer, s');
}

-- A server that answers each request as it likes and keeps the requests in their order.
pub record Answers (O A : Type 0) : Type 0 where
  pub object_answer : RestRequest O A → List (RestRequest O A) → Result A
  pub list_answer : RestRequest O A → List (RestRequest O A) → Result (ListObject A)
  pub error_answer : RestRequest O A → List (RestRequest O A) → Option Error
  pub watch_answer : RestRequest O A → List (RestRequest O A) → Result (List (WatchEvent A))

abbrev pub recorder : {O A : Type 0} → Answers O A → RestClient O (List (RestRequest O A)) A
recorder answers = record {
  into = λ r s. (answers.object_answer r s, s ++ r ∷ []);
  into_list = λ r s. (answers.list_answer r s, s ++ r ∷ []);
  error = λ r s. (answers.error_answer r s, s ++ r ∷ []);
  watch_events = λ r s. (answers.watch_answer r s, s ++ r ∷ []);
}

-- The text of the panic, if the call panics.
abbrev pub panic_of : {B : Type 0} → Called B → Option String
panic_of (answered b) = none
panic_of (panicked text) = some text

-- A call of a client: the text of its panic, and the state of the server afterwards.
abbrev pub after_call :
    {O S T : Type 0}
    → ClientInterface (CallOptions O) S T
    → ListOptions O
    → O
    → PolicyCall O T
    → S
    → Option String × S
after_call c l o (plain (get name opts)) s =
    (none, (c.get name (record { single = opts; lists = l }) s).1)
after_call c l o (plain (list opts)) s = (none, (c.list (record { single = o; lists = opts }) s).1)
after_call c l o (plain (watch opts)) s =
    (none, (c.watch (record { single = o; lists = opts }) s).1)
after_call c l o (plain (create a opts)) s =
    (none, (c.create a (record { single = opts; lists = l }) s).1)
after_call c l o (plain (update a opts)) s =
    (none, (c.update a (record { single = opts; lists = l }) s).1)
after_call c l o (update_status a opts) s =
    (none, (c.update_status a (record { single = opts; lists = l }) s).1)
after_call c l o (plain (delete name opts)) s =
    (none, (c.delete name (record { single = opts; lists = l }) s).1)
after_call c l o (plain (delete_collection opts list_opts)) s = (
  none,
  (c.delete_collection (record { single = opts; lists = l })
      (record { single = o; lists = list_opts }) s).1,
)
after_call c l o (plain (patch name pt data' opts subresources)) s =
    let (answer, s') = c.patch name pt data' (record { single = opts; lists = l }) subresources s in
    (panic_of answer, s')

abbrev pub then_calls :
    {S : Type 0} → Option String × S → (S → Option String × S) → Option String × S
then_calls (none, s) rest = rest s
then_calls (some text, s) rest = (some text, s)

-- Calls of a client one after the other, up to the first that panics.
abbrev pub after_calls :
    {O S T : Type 0}
    → ClientInterface (CallOptions O) S T
    → ListOptions O
    → O
    → List (PolicyCall O T)
    → S
    → Option String × S
after_calls c l o [] s = (none, s)
after_calls c l o (call ∷ calls) s =
    then_calls (after_call c l o call s) (λ s'. after_calls c l o calls s')

abbrev pub is_patch : {O A : Type 0} → PolicyCall O A → Bool
is_patch (plain (patch name pt data' opts subresources)) = true
is_patch call = false

-- How a sequence of calls of the transformed client ends.
abbrev pub ending : {O A : Type 0} → List (PolicyCall O A) → Option String
ending [] = none
ending (call ∷ calls) =
    let rest = ending calls in if is_patch call then some "transform patch unsupported" else rest
