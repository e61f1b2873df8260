-- ===== src/Clientset/Wrapped/Laws.antt =====
-- What the server gets of the calls of the transformed client over the typed client.
use cel_admission_webhook.Common.{
  ◌≡◌, refl, ap, ◌∙◌, sym, some, none, true, false, List, [], if◌then◌else◌, Bool-cases, ◌∷◌, ◌++◌,
  String, inl, inr,
}
use mathlib.Core.List
use cel_admission_webhook.Common.Errors.{Result, ok, err, Result-cases}
use cel_admission_webhook.Client.{ClientInterface, transformed_client, send}
use cel_admission_webhook.Clientset.{
  ListOptions, get, list, watch, create, update, delete, delete_collection, patch, PolicyCall,
  plain, update_status,
}
use cel_admission_webhook.Clientset.Requests.{RestRequest, policy_request, do_policy}
use cel_admission_webhook.Clientset.Wrapped.{
  CallOptions, typed_client, Answers, recorder, after_call, then_calls, after_calls, is_patch,
  ending,
}

-- The call that a call on custom objects becomes on native ones, if its object converts.
abbrev pub if_ok : {A B : Type 0} → (A → B) → Result A → List B
if_ok f (ok a) = f a ∷ []
if_ok f (err e) = []

abbrev state_after : {S R : Type 0} → (R → S) → S → Result R → S
state_after f s (ok r) = f r
state_after f s (err e) = s

module _ {O T R : Type 0} (from : T → Result R) where
  abbrev pub native_call : PolicyCall O T → List (PolicyCall O R)
  native_call (plain (get name opts)) = plain (get name opts) ∷ []
  native_call (plain (list opts)) = plain (list opts) ∷ []
  native_call (plain (watch opts)) = plain (watch opts) ∷ []
  native_call (plain (create a opts)) = if_ok (λ r. plain (create r opts)) (from a)
  native_call (plain (update a opts)) = if_ok (λ r. plain (update r opts)) (from a)
  native_call (update_status a opts) = if_ok (λ r. update_status r opts) (from a)
  native_call (plain (delete name opts)) = plain (delete name opts) ∷ []
  native_call (plain (delete_collection opts list_opts)) =
      plain (delete_collection opts list_opts) ∷ []
  native_call (plain (patch name pt data' opts subresources)) = []

  abbrev pub requests : (R → String) → List (PolicyCall O R) → List (RestRequest O R)
  requests name_of [] = []
  requests name_of (call ∷ calls) = policy_request name_of call ∷ requests name_of calls

  abbrev pub sent : (R → String) → List (PolicyCall O T) → List (RestRequest O R)
  sent name_of [] = []
  sent name_of (call ∷ calls) =
      let rest = sent name_of calls in
      if is_patch call then [] else requests name_of (native_call call) ++ rest

  module _ (to : R → Result T) (name_of : R → String) (answers : Answers O R) (l : ListOptions O)
      (o : O) where
    abbrev pub wrapped : ClientInterface (CallOptions O) (List (RestRequest O R)) T
    wrapped = transformed_client (typed_client (recorder answers) name_of) to from

    abbrev base : ClientInterface (CallOptions O) (List (RestRequest O R)) R
    base = typed_client (recorder answers) name_of

    send-state :
        (call : R → CallOptions O → List (RestRequest O R) → Result R × List (RestRequest O R))
        (a : T) (opts : CallOptions O) (log : List (RestRequest O R))
        → (send base to from call a opts log).1
          ≡ state_after (λ r. (call r opts log).1) log (from a)
    unfolding send
    send-state call a opts log = elim (Result-cases (from a)) [
      | inl (r, converts) ↦ rw (converts, send) refl
      | inr (e, fails) ↦ rw (fails, send) refl
    ]

    recorded :
        (f : R → PolicyCall O R) (log : List (RestRequest O R)) (converted : Result R)
        → state_after (λ r. log ++ policy_request name_of (f r) ∷ []) log converted
          ≡ log ++ requests name_of (if_ok f converted)
    recorded f log (ok r) = refl
    recorded f log (err e) = sym (List.append-nil log)

    call-sent :
        (call : PolicyCall O T) (log : List (RestRequest O R))
        → is_patch call ≡ false
        → after_call wrapped l o call log ≡ (none, log ++ requests name_of (native_call call))
    unfolding transformed_client send typed_client do_policy
    call-sent (plain (get name opts)) log h = refl
    call-sent (plain (list opts)) log h = refl
    call-sent (plain (watch opts)) log h = refl
    call-sent (plain (create a opts)) log h =
        ap (λ s. (none, s))
          (send-state base.create a (record { single = opts; lists = l }) log
            ∙ recorded (λ r. plain (create r opts)) log (from a))
    call-sent (plain (update a opts)) log h =
        ap (λ s. (none, s))
          (send-state base.update a (record { single = opts; lists = l }) log
            ∙ recorded (λ r. plain (update r opts)) log (from a))
    call-sent (update_status a opts) log h =
        ap (λ s. (none, s))
          (send-state base.update_status a (record { single = opts; lists = l }) log
            ∙ recorded (λ r. update_status r opts) log (from a))
    call-sent (plain (delete name opts)) log h = refl
    call-sent (plain (delete_collection opts list_opts)) log h = refl
    call-sent (plain (patch name pt data' opts subresources)) log h = absurd (cc)

    patch-panics :
        (call : PolicyCall O T) (log : List (RestRequest O R))
        → is_patch call ≡ true
        → after_call wrapped l o call log ≡ (some "transform patch unsupported", log)
    unfolding transformed_client
    patch-panics (plain (get name opts)) log h = absurd (cc)
    patch-panics (plain (list opts)) log h = absurd (cc)
    patch-panics (plain (watch opts)) log h = absurd (cc)
    patch-panics (plain (create a opts)) log h = absurd (cc)
    patch-panics (plain (update a opts)) log h = absurd (cc)
    patch-panics (update_status a opts) log h = absurd (cc)
    patch-panics (plain (delete name opts)) log h = absurd (cc)
    patch-panics (plain (delete_collection opts list_opts)) log h = absurd (cc)
    patch-panics (plain (patch name pt data' opts subresources)) log h = refl

    -- A sequence of calls of the transformed client over the typed client, whatever the server answers,
    -- ends at its first patch, with the panic "transform patch unsupported". The server gets one request
    -- for each call before it, in the order of the calls: that of the same call of the typed client on
    -- the converted object. A call whose object does not convert sends nothing. With no patch all the
    -- calls are made.
    pub after_calls-sent :
        (calls : List (PolicyCall O T)) (log : List (RestRequest O R))
        → after_calls wrapped l o calls log ≡ (ending calls, log ++ sent name_of calls)
    after_calls-sent [] log = ap (λ s. (none, s)) (sym (List.append-nil log))
    after_calls-sent (call ∷ calls) log = elim (Bool-cases (is_patch call)) [
      | inl patches ↦
          ap (λ r. then_calls r (after_calls wrapped l o calls)) (patch-panics call log patches)
          ∙ rw patches
              (ap (λ s. (some "transform patch unsupported", s)) (sym (List.append-nil log)))
      | inr other ↦
          ap (λ r. then_calls r (after_calls wrapped l o calls)) (call-sent call log other)
          ∙ rw other (
              after_calls-sent calls (log ++ requests name_of (native_call call))
              ∙ ap (λ s. (ending calls, s)) (List.append_assoc log _ (sent name_of calls)))
    ]
