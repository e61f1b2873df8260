-- ===== src/Client/Laws.antt =====
-- A transformed client against the client that it replaces.
use cel_admission_webhook.Common.{◌≡◌, refl, ap, ◌↔◌, inl, inr, some, List, [], ◌∷◌, arith, subst}
use cel_admission_webhook.Common.Errors.{Error, Result, ok, err, Result-cases, >>=-eq-ok}
use cel_admission_webhook.Client.{
  ListObject, ClientInterface, zero_list, list_with_items, get_items, convert_items, send,
  transformed_client,
}

module _ {R T : Type 0} (to : R → Result T) where
  -- Two lists of equal length, converted entry by entry.
  abbrev pub Converted : List R → List T → Type 0
  Converted [] [] = Unit
  Converted [] (t ∷ ts) = ⊥
  Converted (r ∷ rs) [] = ⊥
  Converted (r ∷ rs) (t ∷ ts) = (to r ≡ ok t) × Converted rs ts

  convert_items_iff : (rs : List R) (ts : List T) → (convert_items to rs ≡ ok ts) ↔ Converted rs ts
  unfolding convert_items
  convert_items_iff [] [] = ground arith
  convert_items_iff [] (t ∷ ts) = ground arith
  convert_items_iff (r ∷ rs) ts = (
    λ h.
        let (t, one, h1) = >>=-eq-ok (to r) _ h in
        let (us, more, h2) = >>=-eq-ok (convert_items to rs) _ h1 in
        let same : t ∷ us ≡ ts = ground arith in
        subst (Converted (r ∷ rs)) same (one, (convert_items_iff rs us).0 more),
    converted-ok r rs ts (convert_items_iff rs),
  )
    where
      converted-ok :
          (q : R) (qs : List R) (us : List T)
          → ((vs : List T) → (convert_items to qs ≡ ok vs) ↔ Converted qs vs)
          → Converted (q ∷ qs) us
          → convert_items to (q ∷ qs) ≡ ok us
      converted-ok q qs [] ih c = absurd c
      converted-ok q qs (u ∷ us) ih (one, more) = rw (one, (ih us).1 more)

module _ {Options S T R : Type 0} (replacement : ClientInterface Options S R) (to : R → Result T)
    (from : T → Result R) where
  -- A call sends an object and answers one.
  abbrev pub Sends : (R → Options → S → Result R × S) → (T → Options → S → Result T × S) → Type 0
  Sends call transformed =
      (object : T) (opts : Options) (s t : S) (answer : T)
      → (transformed object opts s ≡ (ok answer, t)) ↔ (
          (r : R) × (r' : R) × (from object ≡ ok r)
          × (call r opts s ≡ (ok r', t))
          × (to r' ≡ ok answer))

  send-Sends : (call : R → Options → S → Result R × S) → Sends call (send replacement to from call)
  unfolding send
  send-Sends call object opts s t answer = (
    λ h. elim (Result-cases (from object)) [
      | inl (r, sent) ↦
          let h' = rw (sent, send) at h in
          let (r', got, back) = >>=-eq-ok (call r opts s).0 to (ap (λ p. p.0) h') in
          (r, r', sent, (λ i. (got i, (h' i).1)), back)
      | inr (e, unsent) ↦ absurd (cc (rw (unsent, send) at h))
    ],
    λ (r, r', sent, got, back). rw (sent, send) (rw got (ap (λ z. (z, t)) back)),
  )

  -- A creation, an update or a status update succeeds exactly when the object converts, the
  -- replacement accepts it and its answer converts back; the answer and the server's state are these.
  pub transformed_client-Sends :
      Sends replacement.create (transformed_client replacement to from).create
      × Sends replacement.update (transformed_client replacement to from).update
      × Sends replacement.update_status (transformed_client replacement to from).update_status
  unfolding transformed_client
  transformed_client-Sends = (
    send-Sends replacement.create,
    send-Sends replacement.update,
    send-Sends replacement.update_status,
  )

  -- An object that does not convert is not sent: the call fails with that error and the server's
  -- state is what it was.
  pub transformed_client-unsent :
      (object : T) (opts : Options) (s : S) (e : Error)
      → from object ≡ err e
      → ((transformed_client replacement to from).create object opts s ≡ (err e, s))
        × ((transformed_client replacement to from).update object opts s ≡ (err e, s))
        × ((transformed_client replacement to from).update_status object opts s ≡ (err e, s))
  unfolding transformed_client send
  transformed_client-unsent object opts s e h = ground arith

  -- A listing succeeds exactly when the replacement's does and every item converts; it then has the
  -- converted items, as many and in order, and nothing else of the replacement's list: the resource
  -- version and the continue token are empty whatever the server sent.
  pub transformed_client-list :
      (opts : Options) (s t : S) (l : ListObject T)
      → ((transformed_client replacement to from).list opts s ≡ (ok l, t)) ↔ (
          (value : ListObject R) × (items : List T) × (replacement.list opts s ≡ (ok value, t))
          × Converted to (get_items value) items
          × (l ≡ record zero_list { items = some items }))
  unfolding transformed_client list_with_items
  transformed_client-list opts s t l = (
    λ h.
        let (value, got, h1) = >>=-eq-ok (replacement.list opts s).0 _ (ap (λ p. p.0) h) in
        let (items, back, h2) = >>=-eq-ok (convert_items to (get_items value)) _ h1 in
        (value, items, (λ i. (got i, (h i).1)), (convert_items_iff to _ _).0 back, ground arith),
    λ (value, items, got, back, same).
        rw got (rw ((convert_items_iff to (get_items value) items).1 back, same) refl),
  )
