-- ===== src/Client/Reading.antt =====
-- The objects that a client is given to read: by Get, in a listing, and in the events of a watch.
use mathlib.Core.List.{Memᴰ}
use mathlib.Core.List.Memᴰ.{head, tail, not-nil}
use cel_admission_webhook.Common.{ℕ, String, ◌≡◌, sym, ◌∙◌, ap, subst, List, [], ◌∷◌}
use cel_admission_webhook.Common.Errors.{Result, ok, >>=-eq-ok}
use cel_admission_webhook.Client.{
  ListObject, of_type, foreign, WatchEvent, ClientInterface, get_items, filter_events,
  transformed_client,
}
use cel_admission_webhook.Client.Laws.{Converted, transformed_client-list}
use cel_admission_webhook.Client.Watching.{
  Seen, at_end, converted, dropped, passed, filter_events-Seen,
}

module _ {Options S T : Type 0} (client : ClientInterface Options S T) where
  -- An object that some call of the client answers.
  pub data IsRead (p : T) : Type 0 where
    by_get :
        {name : String} {opts : Options} {s t : S} → client.get name opts s ≡ (ok p, t) → IsRead p
    by_list :
        {opts : Options} {s t : S} {l : ListObject T}
        → client.list opts s ≡ (ok l, t)
        → Memᴰ p (get_items l)
        → IsRead p
    by_watch :
        {opts : Options} {s t : S} {k : String} {events : List (WatchEvent T)}
        → client.watch opts s ≡ (ok events, t)
        → Memᴰ (record { event_type = k; object = of_type p }) events
        → IsRead p

module _ {R T : Type 0} (to : R → Result T) where
  Converted-source :
      (rs : List R) (ts : List T) (p : T) → Converted to rs ts → Memᴰ p ts → (r : R) × (to r ≡ ok p)
  Converted-source [] [] p all m = absurd (not-nil m)
  Converted-source [] (t ∷ ts) p all m = absurd all
  Converted-source (r ∷ rs) [] p all m = absurd all
  Converted-source (r ∷ rs) (t ∷ ts) p (one, more) (head e) = (r, one ∙ ap ok (sym e))
  Converted-source (r ∷ rs) (t ∷ ts) p (one, more) (tail m) = Converted-source rs ts p more m

module _ {Options S T R : Type 0} (replacement : ClientInterface Options S R) (to : R → Result T)
    (from : T → Result R) where
  same_object :
      {k j : String} {p q : T}
      → ◌≡◌ {A = WatchEvent T}
          (record { event_type = k; object = of_type p })
          (record { event_type = j; object = of_type q })
      → q ≡ p
  same_object e = let o = ap (λ x. x.object) e in cc

  not_foreign :
      {k j : String} {p : T} {n : ℕ}
      → ◌≡◌ {A = WatchEvent T}
          (record { event_type = k; object = of_type p })
          (record { event_type = j; object = foreign n })
      → ⊥
  not_foreign e = let o = ap (λ x. x.object) e in absurd (cc)

  Seen-source :
      {es : List (WatchEvent R)} {fs : List (WatchEvent T)} {k : String} {p : T}
      → Seen replacement to from es fs
      → Memᴰ (record { event_type = k; object = of_type p }) fs
      → (r : R) × (to r ≡ ok p)
  Seen-source at_end m = absurd (not-nil m)
  Seen-source (converted {r} one seen) (head e) = (r, one ∙ ap ok (same_object e))
  Seen-source (converted one seen) (tail m) = Seen-source seen m
  Seen-source (dropped failed seen) m = Seen-source seen m
  Seen-source (passed seen) (head e) = absurd (not_foreign e)
  Seen-source (passed seen) (tail m) = Seen-source seen m

  -- What is read through a transformed client was converted.
  pub IsRead-source :
      {p : T} → IsRead (transformed_client replacement to from) p → (r : R) × (to r ≡ ok p)
  unfolding transformed_client get_items
  IsRead-source (by_get {name} {opts} {s} h) =
      let (r, got, back) = >>=-eq-ok (replacement.get name opts s).0 to (ap (λ q. q.0) h) in
      (r, back)
  IsRead-source {p} (by_list {opts} {s} {t} {l} h m) =
      let (value, items, got, all, same) =
        (transformed_client-list replacement to from opts s t l).0 h in
      Converted-source to (get_items value) items p all (subst (λ x. Memᴰ p (get_items x)) same m)
  IsRead-source {p} (by_watch {opts} {s} {k} {events} h m) =
      let (es, got, back) = >>=-eq-ok (replacement.watch opts s).0 _ (ap (λ q. q.0) h) in
      let same : filter_events replacement to from es ≡ events = cc in
      Seen-source
        (subst (Seen replacement to from es) same (filter_events-Seen replacement to from es)) m
