-- ===== src/Client/Watching.antt =====
-- The events that a watch through a transformed client delivers.
use cel_admission_webhook.Common.{ℕ, String, ◌≡◌, refl, ◌↔◌, inl, inr, List, [], ◌∷◌, ◌++◌, subst}
use cel_admission_webhook.Common.Errors.{Error, Result, ok, err, Result-cases}
use cel_admission_webhook.Client.{
  Watched, of_type, foreign, WatchEvent, ClientInterface, filter_event, filter_events,
}

module _ {Options S T R : Type 0} (replacement : ClientInterface Options S R) (to : R → Result T)
    (from : T → Result R) where
  -- The events that a watcher sees of the replacement's: one of the replacement's type is converted, or dropped
  -- if it does not convert; any other passes through.
  pub data Seen : List (WatchEvent R) → List (WatchEvent T) → Type 0 where
    at_end : Seen [] []
    converted :
        {k : String} {r : R} {t : T} {es : List (WatchEvent R)} {fs : List (WatchEvent T)}
        → to r ≡ ok t
        → Seen es fs
        → Seen
            (record { event_type = k; object = of_type r } ∷ es)
            (record { event_type = k; object = of_type t } ∷ fs)
    dropped :
        {k : String} {r : R} {e : Error} {es : List (WatchEvent R)} {fs : List (WatchEvent T)}
        → to r ≡ err e
        → Seen es fs
        → Seen (record { event_type = k; object = of_type r } ∷ es) fs
    passed :
        {k : String} {n : ℕ} {es : List (WatchEvent R)} {fs : List (WatchEvent T)}
        → Seen es fs
        → Seen
            (record { event_type = k; object = foreign n } ∷ es)
            (record { event_type = k; object = foreign n } ∷ fs)

  event-Seen :
      (k : String) (o : Watched R) (es : List (WatchEvent R)) (fs : List (WatchEvent T))
      → Seen es fs
      → Seen
          (record { event_type = k; object = o } ∷ es)
          (filter_event replacement to from (record { event_type = k; object = o }) o ++ fs)
  unfolding filter_event
  event-Seen k (foreign n) es fs seen = passed seen
  event-Seen k (of_type r) es fs seen = elim (Result-cases (to r)) [
    | inl (t, e) ↦ rw (e, filter_event) (converted e seen)
    | inr (x, e) ↦ rw (e, filter_event) (dropped e seen)
  ]

  pub filter_events-Seen :
      (es : List (WatchEvent R)) → Seen es (filter_events replacement to from es)
  unfolding filter_events
  filter_events-Seen [] = at_end
  filter_events-Seen (event ∷ es) =
      event-Seen event.event_type event.object es (filter_events replacement to from es)
        (filter_events-Seen es)

  Seen-unique :
      {es : List (WatchEvent R)} {fs : List (WatchEvent T)}
      → Seen es fs
      → filter_events replacement to from es ≡ fs
  unfolding filter_events filter_event
  Seen-unique at_end = refl
  Seen-unique (converted {k} {r} {t} {es} {fs} e seen) =
      rw (e, filter_event) (rw (Seen-unique seen))
  Seen-unique (dropped {k} {r} {e = x} {es} {fs} e seen) = rw (e, filter_event) (Seen-unique seen)
  Seen-unique (passed {k} {n} {es} {fs} seen) = rw (Seen-unique seen)

  -- A watch delivers, in the order of the replacement's events, each event of the replacement's type
  -- with its object converted, drops those that do not convert, and passes any other through.
  pub filter_events_iff :
      (es : List (WatchEvent R)) (fs : List (WatchEvent T))
      → (filter_events replacement to from es ≡ fs) ↔ Seen es fs
  filter_events_iff es fs = (λ h. subst (Seen es) h (filter_events-Seen es), Seen-unique)
