-- ===== src/Webhook/Handler/Decode.antt =====
-- The objects and the extra information that the handler passes to the validator.
use mathlib.Core.Option
use mathlib.Core.List.{map-id}
use cel_admission_webhook.Common.{
  ℕ, String, ◌≡◌, refl, ap, ◌∙◌, ◌↔◌, ◌⊎◌, inl, inr, true, Option, none, some, List, [], ◌∷◌, map,
  arith, Bool-cases, Option-cases,
}
use cel_admission_webhook.Common.Errors.{Error, ok}
use cel_admission_webhook.Common.Dict.{Dict, lookup, lookup-insert}
use cel_admission_webhook.Kinds.{GroupVersionKind, gvk_eq, gvk_eq_iff}
use cel_admission_webhook.Webhook.Handler.{
  Backend, Bytes, Decoded, Outcome, ◌>>=◌, pass, failure, extra_entries, convert_extra, decode_raw,
  decoded_object,
}

lookup-extra_entries :
    (k : String) (m : Dict (List String)) → lookup k (extra_entries m) ≡ lookup k m
unfolding extra_entries lookup
lookup-extra_entries k [] = refl
lookup-extra_entries k ((j, v) ∷ m) = ground (
  arith,
  lookup-insert j k (map (λ s. s) v) (extra_entries m),
  map-id v,
  lookup-extra_entries k m,
)

-- The user's extra information reaches the validator key for key: nil stays nil, and a map answers
-- each key as the request's map does.
pub convert_extra_lem :
    (extra : Option (Dict (List String)))
    → ((convert_extra extra ≡ none) ↔ (extra ≡ none))
      × ((k : String) → Option.map (lookup k) (convert_extra extra) ≡ Option.map (lookup k) extra)
unfolding convert_extra
convert_extra_lem none = ((λ e. refl, λ e. refl), λ k. refl)
convert_extra_lem (some m) = (ground arith, λ k. ap some (lookup-extra_entries k m))

pub >>=-eq-pass :
    {A B : Type 0} (m : Outcome A) (f : A → Outcome B) {c : B}
    → (m >>= f) ≡ pass c
    → (a : A) × (m ≡ pass a) × (f a ≡ pass c)
>>=-eq-pass (pass a) f h = (a, refl, h)
>>=-eq-pass (failure e code) f h = cc

module _ (b : Backend) where
  open b use {Object, decode, is_not_registered, unmarshal_unstructured}

  decoded_object-pass :
      (raw : Bytes) (d : Decoded Object) (o : Object)
      → decoded_object b raw d ≡ pass (some o)
      → ((d.error ≡ none) × (d.object ≡ some o))
        ⊎ ((e : Error) × (d.error ≡ some e)
            × (is_not_registered e ≡ true)
            × (unmarshal_unstructured raw ≡ ok o))
  unfolding decoded_object
  decoded_object-pass raw d o h = elim (Option-cases d.error) [
    | inl none' ↦ inl (none', ground arith)
    | inr (e, found) ↦ inr (e, found, ground arith, ground arith)
  ]

  -- An object that is passed on has the kind that the request names: the decoder read it at that
  -- kind, and gave it, or refused it as unregistered and its text was read as an unstructured object.
  pub decode_raw-kind :
      (raw : Bytes) (kind : GroupVersionKind) (o : Object)
      → decode_raw b raw kind ≡ pass (some o)
      → ((decode raw).gvk ≡ some kind)
        × ((((decode raw).error ≡ none) × ((decode raw).object ≡ some o))
            ⊎ ((e : Error) × ((decode raw).error ≡ some e)
                × (is_not_registered e ≡ true)
                × (unmarshal_unstructured raw ≡ ok o)))
  unfolding decode_raw
  decode_raw-kind [] kind o h = cc
  decode_raw-kind (r ∷ raw) kind o h = elim (Option-cases (decode (r ∷ raw)).gvk) [
    | inl e ↦ cc (rw (e, decode_raw) at h)
    | inr (g, e) ↦ elim (Bool-cases (gvk_eq g kind)) [
      | inl same ↦ (
        e ∙ ap some ((gvk_eq_iff g kind).0 same),
        decoded_object-pass (r ∷ raw) (decode (r ∷ raw)) o (rw (e, same, decode_raw) at h),
      )
      | inr other ↦ cc (rw (e, other, decode_raw) at h)
    ]
  ]

  pub decode_raw-failure :
      (raw : Bytes) (kind : GroupVersionKind) (e : Error) (code : ℕ)
      → decode_raw b raw kind ≡ failure e code
      → (code ≡ 400) ⊎ (code ≡ 500)
  unfolding decode_raw
  decode_raw-failure [] kind e code h = cc
  decode_raw-failure (r ∷ raw) kind e code h = ground arith
