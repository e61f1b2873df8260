-- ===== src/Controller/Events.antt =====
-- Which events of the informer reach the work queue.
use cel_admission_webhook.Common.{
  String, ◌≡◌, refl, ◌≢◌, ◌↔◌, ◌⊎◌, inl, inr, [], ◌∷◌, arith, eq_iff, ◌==◌, Bool-cases, subst,
}
use cel_admission_webhook.Common.Errors.{Error, Result, ok, err, Result-cases}
use cel_admission_webhook.Controller.{
  Environment, Event, added, updated, deleted, add, on_event, update_func, enqueue,
}

module _ (env : Environment) where
  open env use {Object, key_of, version_of}

  -- The object that an event is about, with the condition that it is news: an addition or a deletion
  -- is, and an update whose two versions can be read and differ.
  abbrev pub IsNews : Event env → Object → Type 0
  IsNews (added obj) o = o ≡ obj
  IsNews (updated old new) o =
      (v : String) × (w : String) × (version_of old ≡ ok v)
      × (version_of new ≡ ok w)
      × (v ≢ w)
      × (o ≡ new)
  IsNews (deleted obj) o = o ≡ obj

  enqueue-cases :
      (obj : Object)
      → ((k : String) × (key_of obj ≡ ok k) × (enqueue env obj ≡ add k ∷ []))
        ⊎ ((e : Error) × (key_of obj ≡ err e) × (enqueue env obj ≡ []))
  unfolding enqueue
  enqueue-cases obj = elim (Result-cases (key_of obj)) [
    | inl (k, e) ↦ inl (k, e, rw (e, enqueue))
    | inr (x, e) ↦ inr (x, e, rw (e, enqueue))
  ]

  enqueue_iff : (obj : Object) (k : String) → (enqueue env obj ≡ add k ∷ []) ↔ (key_of obj ≡ ok k)
  enqueue_iff obj k = ground (arith, enqueue-cases obj)

  enqueue-news :
      (obj : Object) (k : String)
      → ((enqueue env obj ≡ add k ∷ []) ↔ ((o : Object) × (o ≡ obj) × (key_of o ≡ ok k)))
        × ((enqueue env obj ≡ []) ⊎ ((j : String) × (enqueue env obj ≡ add j ∷ [])))
  enqueue-news obj k = (
    (
      λ e. (obj, refl, (enqueue_iff obj k).0 e),
      λ (o, same, h). (enqueue_iff obj k).1 (subst (λ x. key_of x ≡ ok k) same h),
    ),
    elim (enqueue-cases obj) [
      | inl (j, _, queued) ↦ inr (j, queued)
      | inr (_, _, nothing) ↦ inl nothing
    ],
  )

  update-cases :
      (new : Object) (r s : Result String)
      → ((v : String) × (w : String) × (r ≡ ok v)
          × (s ≡ ok w)
          × (v ≢ w)
          × (update_func env new r s ≡ enqueue env new))
        ⊎ ((update_func env new r s ≡ [])
            × ¬ ((v : String) × (w : String) × (r ≡ ok v) × (s ≡ ok w) × (v ≢ w)))
  unfolding update_func
  update-cases new (ok v) (ok w) = elim (Bool-cases (v == w)) [
    | inl same ↦ inr (rw same, λ (v', w', ev, ew, differ). differ (cc ((eq_iff v w).0 same)))
    | inr other ↦ inl (v, w, refl, refl, (λ same. cc ((eq_iff v w).1 same)), rw other)
  ]
  update-cases new (err e) s = inr (refl, λ (v, w, ev, ew, differ). cc)
  update-cases new (ok v) (err e) = inr (refl, λ (v', w, ev, ew, differ). cc)

  -- An event puts exactly the key of its object on the queue if it is news and the object has a key,
  -- and makes no call of the queue otherwise: a deletion whose object has no key, as the informer's
  -- tombstone `DeletedFinalStateUnknown`, is lost.
  pub on_event_iff :
      (event : Event env) (k : String)
      → ((on_event env event ≡ add k ∷ []) ↔ ((o : Object) × IsNews event o × (key_of o ≡ ok k)))
        × ((on_event env event ≡ []) ⊎ ((j : String) × (on_event env event ≡ add j ∷ [])))
  unfolding on_event
  on_event_iff (added obj) k = enqueue-news obj k
  on_event_iff (updated old new) k = elim (update-cases new (version_of old) (version_of new)) [
    | inl (v, w, ev, ew, differ, queued) ↦ (
      (
        λ e. (new, (v, w, ev, ew, differ, refl), (enqueue_iff new k).0 (rw queued at e)),
        λ (o, (v', w', ev', ew', differ', same), h).
            rw queued ((enqueue_iff new k).1 (subst (λ x. key_of x ≡ ok k) same h)),
      ),
      rw queued (enqueue-news new k).1,
    )
    | inr (nothing, stale) ↦ (
      (
        λ e. absurd (cc),
        λ (o, (v, w, ev, ew, differ, same), h). absurd (stale (v, w, ev, ew, differ)),
      ),
      inl nothing,
    )
  ]
  on_event_iff (deleted obj) k = enqueue-news obj k
