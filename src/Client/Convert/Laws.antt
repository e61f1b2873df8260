-- ===== src/Client/Convert/Laws.antt =====
-- What the conversions make of an object, and what reaches the readers of a wrapped client.
use cel_admission_webhook.Common.{
  String, ◌≡◌, refl, ap, sym, ◌∙◌, ◌≢◌, ◌⊎◌, inl, inr, Option, none, some, arith, ◌==◌, eq_iff,
  Bool-cases,
}
use cel_admission_webhook.Common.Errors.{Error, ok, err, Result-cases}
use cel_admission_webhook.Client.Reading.{IsRead, IsRead-source}
use cel_admission_webhook.Client.Convert.{
  Codec, convert, native_to_crd_policy, crd_to_native_policy, native_to_crd_policy_binding,
  crd_to_native_policy_binding, result_of, AdmissionClient, KubeClient, Codecs, new_wrapped_client,
}

result_of-ok :
    {B : Type 0} (r : Option B × Option Error) {b : B} → result_of r ≡ ok b → r ≡ (some b, none)
result_of-ok (value, some e) h = absurd (cc)
result_of-ok (some c, none) h = cc
result_of-ok (none, none) h = absurd (cc)

other_group :
    {v : String}
    → (v ≡ "") ⊎ (v ≡ "apiregistration.k8s.io/v1alpha1")
    → v ≢ "admissionregistration.k8s.io/v1alpha1"
other_group {v} h e = ground (
  arith,
  eq_iff "" "admissionregistration.k8s.io/v1alpha1",
  eq_iff "apiregistration.k8s.io/v1alpha1" "admissionregistration.k8s.io/v1alpha1",
)

module _ {A B : Type 0} (codec : Codec A B) where
  open codec use {Json, marshal, unmarshal, version_of, with_version}

  -- The four ways of a conversion, stated apart from the code.
  abbrev pub Converts : String → Option A → Option B × Option Error → Type 0
  Converts version none r = r ≡ (none, none)
  Converts version (some a) r =
      ((e : Error) × (marshal a ≡ err e) × (r ≡ (none, some e)))
      ⊎ ((j : Json) × (b : B) × (e : Option Error) × (marshal a ≡ ok j)
          × (unmarshal j ≡ (b, e))
          × (((version_of b ≡ "") × (r ≡ (some b, e)))
              ⊎ ((version_of b ≢ "") × (r ≡ (some (with_version version b), e)))))

  convert-Converts :
      (version : String) (a : Option A) → Converts version a (convert codec version a)
  unfolding convert
  convert-Converts version none = refl
  convert-Converts version (some a) = elim (Result-cases (marshal a)) [
    | inr (e, failed) ↦ inl (e, failed, rw (failed, convert) refl)
    | inl (j, made) ↦ elim (Bool-cases (version_of (unmarshal j).0 == "")) [
      | inl unset ↦ inr (
        j,
        (unmarshal j).0,
        (unmarshal j).1,
        made,
        refl,
        inl ((eq_iff _ _).0 unset, rw (made, convert) (rw unset)),
      )
      | inr set' ↦ inr (
        j,
        (unmarshal j).0,
        (unmarshal j).1,
        made,
        refl,
        inr ((λ e. cc ((eq_iff _ _).1 e)), rw (made, convert) (rw set')),
      )
    ]
  ]

  -- nil gives nil; an object that does not marshal gives nil and the error; any other gives what
  -- Unmarshal left, also beside an error, and a version that is not empty is replaced: by the CRD
  -- group's on the way out, and on the way in by "apiregistration.k8s.io/v1alpha1".
  pub conversions-Converts :
      (a : Option A)
      → Converts "admissionregistration.x-k8s.io/v1alpha1" a (native_to_crd_policy codec a)
        × Converts "apiregistration.k8s.io/v1alpha1" a (crd_to_native_policy codec a)
        × Converts "admissionregistration.x-k8s.io/v1alpha1" a
            (native_to_crd_policy_binding codec a)
        × Converts "apiregistration.k8s.io/v1alpha1" a (crd_to_native_policy_binding codec a)
  unfolding native_to_crd_policy crd_to_native_policy native_to_crd_policy_binding
      crd_to_native_policy_binding
  conversions-Converts a = (
    convert-Converts "admissionregistration.x-k8s.io/v1alpha1" a,
    convert-Converts "apiregistration.k8s.io/v1alpha1" a,
    convert-Converts "admissionregistration.x-k8s.io/v1alpha1" a,
    convert-Converts "apiregistration.k8s.io/v1alpha1" a,
  )

  convert-some : (version : String) (a : A) → convert codec version (some a) ≢ (none, none)
  convert-some version a h = elim (convert-Converts version (some a)) [
    | inl (e, failed, r) ↦ cc
    | inr (j, b, e, made, left, inl (unset, r)) ↦ cc
    | inr (j, b, e, made, left, inr (set', r)) ↦ cc
  ]

  -- The version of an object that a conversion gave with no error.
  result_of-version :
      (version : String) (a : A) (b : B)
      → ((v : String) (c : B) → version_of (with_version v c) ≡ v)
      → result_of (convert codec version (some a)) ≡ ok b
      → (version_of b ≡ "") ⊎ (version_of b ≡ version)
  result_of-version version a b law h =
      let got = result_of-ok (convert codec version (some a)) h in
      elim (convert-Converts version (some a)) [
        | inl (e, failed, r) ↦ absurd (cc)
        | inr (j, c, e, made, left, inl (unset, r)) ↦
            let same : c ≡ b = cc in inl (ap version_of (sym same) ∙ unset)
        | inr (j, c, e, made, left, inr (set', r)) ↦
            let same : with_version version c ≡ b = cc in
            inr (ap version_of (sym same) ∙ law version c)
      ]

module _ {Options S P B P' B' Others : Type 0} (codecs : Codecs P B P' B')
    (client : KubeClient Options S P B Others) (custom : AdmissionClient Options S P' B') where
  open codecs use {policy_in}

  -- The bug: no policy that is read through the wrapped client, by Get, in a listing or in an event of a
  -- watch, has the version of the API that it is read from, "admissionregistration.k8s.io/v1alpha1": its
  -- version is empty, or that of another group.
  pub new_wrapped_client-version :
      ((v : String) (c : P) → policy_in.version_of (policy_in.with_version v c) ≡ v)
      → (p : P) → IsRead (new_wrapped_client codecs client custom).admission.policies p
      → ((policy_in.version_of p ≡ "")
          ⊎ (policy_in.version_of p ≡ "apiregistration.k8s.io/v1alpha1"))
        × (policy_in.version_of p ≢ "admissionregistration.k8s.io/v1alpha1")
  unfolding new_wrapped_client crd_to_native_policy
  new_wrapped_client-version law p reads =
      let (r, back) = IsRead-source custom.policies _ _ reads in
      let version = result_of-version policy_in "apiregistration.k8s.io/v1alpha1" r p law back in
      (version, other_group version)
