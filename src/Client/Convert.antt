-- ===== src/Client/Convert.antt =====
-- injected_client.go: the conversions between the native policies and bindings and those of the
-- custom resources, by way of JSON, and the client with these put before it.
pub mod Laws
use cel_admission_webhook.Common.{String, Option, none, some, ◌==◌, if◌then◌else◌}
use cel_admission_webhook.Common.Errors.{Error, errorf, Result, ok, err}
use cel_admission_webhook.Client.{ClientInterface, transformed_client}

-- `json.Marshal` of one type and `json.Unmarshal` into another, which leaves a value also when it
-- fails; and the field `APIVersion` of that value.
pub record Codec (A B : Type 0) : Type 1 where
  pub Json : Type 0
  pub marshal : A → Result Json
  pub unmarshal : Json → B × Option Error
  pub version_of : B → String
  pub with_version : String → B → B

module _ {A B : Type 0} (codec : Codec A B) where
  open codec use {marshal, unmarshal, version_of, with_version}

  abbrev set_version : String → B → B
  set_version version res = if version_of res == "" then res else with_version version res

  -- The body that the four conversions share: the pointer and the error that they return.
  convert : String → Option A → Option B × Option Error
  convert version none = (none, none)
  convert version (some vap) = elim (marshal vap) [
    | err e ↦ (none, some e)
    | ok to_json ↦ let (res, e) = unmarshal to_json in (some (set_version version res), e)
  ]

  unfoldable pub native_to_crd_policy : Option A → Option B × Option Error
  unfolding convert
  native_to_crd_policy = convert "admissionregistration.x-k8s.io/v1alpha1"

  unfoldable pub crd_to_native_policy : Option A → Option B × Option Error
  unfolding convert
  crd_to_native_policy = convert "apiregistration.k8s.io/v1alpha1"

  unfoldable pub native_to_crd_policy_binding : Option A → Option B × Option Error
  unfolding convert
  native_to_crd_policy_binding = convert "admissionregistration.x-k8s.io/v1alpha1"

  unfoldable pub crd_to_native_policy_binding : Option A → Option B × Option Error
  unfolding convert
  crd_to_native_policy_binding = convert "apiregistration.k8s.io/v1alpha1"

-- `if err != nil { return nil, err }` on what a conversion of a pointer returned. A nil pointer
-- with no error comes of a nil one only (`convert-some`), and no call of the client passes one.
abbrev pub result_of : {B : Type 0} → Option B × Option Error → Result B
result_of (value, some e) = err e
result_of (some b, none) = ok b
result_of (none, none) = err (errorf "nil pointer")

-- The part of a client that is replaced, `AdmissionregistrationV1alpha1Interface`.
pub record AdmissionClient (Options S P B : Type 0) : Type 0 where
  pub policies : ClientInterface Options S P
  pub bindings : ClientInterface Options S B

-- `kubernetes.Interface`: that part, and all others.
pub record KubeClient (Options S P B Others : Type 0) : Type 0 where
  pub admission : AdmissionClient Options S P B
  pub others : Others

-- The conversions that the replaced client is given: the native policies `P` and bindings `B`, those
-- of the custom resources `P'` and `B'`.
pub record Codecs (P B P' B' : Type 0) : Type 1 where
  pub policy_out : Codec P P'
  pub policy_in : Codec P' P
  pub binding_out : Codec B B'
  pub binding_in : Codec B' B

module _ {Options S P B P' B' : Type 0} (codecs : Codecs P B P' B') where
  open codecs use {policy_out, policy_in, binding_out, binding_in}

  -- `replacedClient`: the methods ValidatingAdmissionPolicies and ValidatingAdmissionPolicyBindings.
  unfoldable pub replaced_client :
      AdmissionClient Options S P B
      → AdmissionClient Options S P' B'
      → AdmissionClient Options S P B
  replaced_client native replacement = record {
    policies =
        transformed_client replacement.policies
          (λ r. result_of (crd_to_native_policy policy_in (some r)))
          (λ t. result_of (native_to_crd_policy policy_out (some t)));
    bindings =
        transformed_client replacement.bindings
          (λ r. result_of (crd_to_native_policy_binding binding_in (some r)))
          (λ t. result_of (native_to_crd_policy_binding binding_out (some t)));
  }

  -- `NewWrappedClient`, with the method AdmissionregistrationV1alpha1 of the result.
  unfoldable pub new_wrapped_client :
      {Others : Type 0}
      → KubeClient Options S P B Others
      → AdmissionClient Options S P' B'
      → KubeClient Options S P B Others
  unfolding replaced_client
  new_wrapped_client client custom = record client {
    admission = replaced_client client.admission custom;
  }
