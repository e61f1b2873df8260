-- ===== src/Webhook/Handler.antt =====
-- The HTTP handlers of pkg/webhook/server.go: `handleHealth`, `parseRequest` and
-- `handleWebhookValidate`. What stands outside the repository (encoding/json, the decoder of the
-- scheme, the validator, the rendering of values in messages) is the record `Backend`.
pub mod Decode
pub mod Verdict
pub mod Answer
mod Tests
use cel_admission_webhook.Common.{
  ℕ, String, Bool, true, false, not, Option, none, some, List, [], ◌∷◌, map, ◌==◌, if◌then◌else◌,
}
use cel_admission_webhook.Common.Errors.{Error, errorf, Result, ok, err}
use cel_admission_webhook.Common.Dict.{Dict, insert}
use cel_admission_webhook.Kinds.{GroupVersionKind, GroupVersionResource, gvk_eq}
use cel_admission_webhook.Webhook.Review.{ReviewAnswer, review_response}
use Prim.Native.String.{◌++◌ as str_append}

abbrev pub Bytes : Type 0
Bytes = List ℕ

-- What the handler reads of an `http.Request`; an absent header is "".
pub record HttpRequest : Type 0 where
  pub content_type : String
  pub body : Bytes

pub data Body : Type 0 where
  text : String → Body
  bytes : Bytes → Body

pub record HttpResponse : Type 0 where
  pub status : ℕ
  pub content_type : String
  pub body : Body

-- `authenticationv1.UserInfo`; a nil `Extra` map is `none`.
pub record UserInfo : Type 0 where
  pub username : String
  pub uid : String
  pub groups : List String
  pub extra : Option (Dict (List String))

-- The fields that the handler reads of an `admissionv1.AdmissionRequest`.
pub record AdmissionRequest : Type 0 where
  pub uid : String
  pub kind : GroupVersionKind
  pub resource : GroupVersionResource
  pub subresource : String
  pub name : String
  pub namespace : String
  pub operation : String
  pub user_info : UserInfo
  pub object_raw : Bytes
  pub old_object_raw : Bytes

-- The arguments of `admission.NewAttributesRecord`; the options are always nil.
pub record Attributes (Object : Type 0) : Type 0 where
  pub object : Option Object
  pub old_object : Option Object
  pub kind : GroupVersionKind
  pub namespace : String
  pub name : String
  pub resource : GroupVersionResource
  pub subresource : String
  pub operation : String
  pub dry_run : Bool
  pub user_info : UserInfo

-- The three results of `Decoder.Decode`.
pub record Decoded (Object : Type 0) : Type 0 where
  pub object : Option Object
  pub gvk : Option GroupVersionKind
  pub error : Option Error

pub record Backend : Type 1 where
  pub Object : Type 0
  -- `%q` of a text, `%v` of a kind
  pub quote : String → String
  pub show_gvk : Option GroupVersionKind → String
  -- `json.Unmarshal` into an AdmissionReview: its `Request`
  pub unmarshal_review : Bytes → Result (Option AdmissionRequest)
  pub decode : Bytes → Decoded Object
  pub is_not_registered : Error → Bool
  pub unmarshal_unstructured : Bytes → Result Object
  pub handles : String → Bool
  pub validate : Attributes Object → Option Error
  pub marshal_review : ReviewAnswer → Result Bytes

-- A step of the handler: go on with a value, or `failure(err, status)` and return.
pub data Outcome (A : Type 0) : Type 0 where
  pass : A → Outcome A
  failure : Error → ℕ → Outcome A

infixl 5 ◌>>=◌
abbrev pub ◌>>=◌ : {A B : Type 0} → Outcome A → (A → Outcome B) → Outcome B
pass a >>= f = f a
failure e code >>= f = failure e code

abbrev pub is_empty : Bytes → Bool
is_empty [] = true
is_empty (b ∷ bs) = false

abbrev pub status_bad_request : ℕ
status_bad_request = 400

abbrev pub status_internal_error : ℕ
status_internal_error = 500

-- `http.Error`
abbrev pub http_error : Error → ℕ → HttpResponse
http_error e code = record {
  status = code;
  content_type = "text/plain; charset=utf-8";
  body = text (str_append e.message "\n");
}

-- `handleHealth`; net/http detects the type of a body that sets none.
unfoldable pub handle_health : HttpRequest → HttpResponse
handle_health req = record {
  status = 200;
  content_type = "text/plain; charset=utf-8";
  body = text "OK";
}

-- The loop of `convertExtra` over the entries of the map, whose order Go leaves open: here the last
-- entry goes first.
extra_entries : Dict (List String) → Dict (List String)
extra_entries [] = []
extra_entries ((k, v) ∷ input) = insert k (map (λ s. s) v) (extra_entries input)

unfoldable pub convert_extra : Option (Dict (List String)) → Option (Dict (List String))
unfolding extra_entries
convert_extra none = none
convert_extra (some input) = some (extra_entries input)

module _ (b : Backend) where
  open b use {
    Object, quote, show_gvk, unmarshal_review, decode, is_not_registered, unmarshal_unstructured,
    handles, validate, marshal_review,
  }

  unfoldable pub parse_request : HttpRequest → Result AdmissionRequest
  parse_request r =
      if not (r.content_type == "application/json")
      then err (
          errorf (
            str_append "Content-Type: " (
              str_append (quote r.content_type)
                (str_append " should be " (quote "application/json")))))
      else if is_empty r.body
      then err (errorf "admission request body is empty")
      else elim (unmarshal_review r.body) [
        | err e ↦ err (errorf (str_append "could not parse admission review request: " e.message))
        | ok none ↦ err (errorf "admission review can't be used: Request field is nil")
        | ok (some request) ↦ ok request
      ]

  unexpected_gvk : Option GroupVersionKind → GroupVersionKind → Outcome (Option Object)
  unexpected_gvk got want =
      failure
        (errorf (
          str_append "unexpected GVK "
            (str_append (show_gvk got) (str_append ". Expected " (show_gvk (some want))))))
        status_bad_request

  as_unstructured : Bytes → Outcome (Option Object)
  as_unstructured raw = elim (unmarshal_unstructured raw) [
    | ok u ↦ pass (some u)
    | err e ↦ failure e status_internal_error
  ]

  -- The cases of the switch behind the test of the kind.
  decoded_object : Bytes → Decoded Object → Outcome (Option Object)
  unfolding as_unstructured
  decoded_object raw d = elim d.error [
    | none ↦ pass d.object
    | some e ↦ if is_not_registered e then as_unstructured raw else failure e status_bad_request
  ]

  -- One of the two blocks that read `OldObject.Raw` and `Object.Raw`; they differ in nothing else.
  unfoldable pub decode_raw : Bytes → GroupVersionKind → Outcome (Option Object)
  unfolding unexpected_gvk decoded_object
  decode_raw [] kind = pass none
  decode_raw (r ∷ raw) kind = elim (decode (r ∷ raw)).gvk [
    | none ↦ unexpected_gvk none kind
    | some gvk ↦
        if gvk_eq gvk kind
        then decoded_object (r ∷ raw) (decode (r ∷ raw))
        else unexpected_gvk (some gvk) kind
  ]

  unfoldable pub attributes : AdmissionRequest → Option Object → Option Object → Attributes Object
  attributes a old_object object = record {
    object = object;
    old_object = old_object;
    kind = a.kind;
    namespace = a.namespace;
    name = a.name;
    resource = a.resource;
    subresource = a.subresource;
    operation = a.operation;
    dry_run = false;
    user_info = record a.user_info { extra = convert_extra a.user_info.extra };
  }

  -- The body of `if wh.validator.Handles(…)`: the verdict of the validator.
  unfoldable pub validated : AdmissionRequest → Outcome (Option Error)
  validated a = do
    old_object ← decode_raw a.old_object_raw a.kind
    object ← decode_raw a.object_raw a.kind
    pass (validate (attributes a old_object object))

  -- The handler from the parsed request up to `reviewResponse`.
  unfoldable pub review : AdmissionRequest → Outcome ReviewAnswer
  unfolding validated
  review a = do
    error ← if handles a.operation then validated a else pass none
    pass (review_response a.uid error)

  -- `json.Marshal` and the write of the answer.
  unfoldable pub write_review : Outcome ReviewAnswer → HttpResponse
  write_review (failure e code) = http_error e code
  write_review (pass answer) = elim (marshal_review answer) [
    | err e ↦ http_error e status_internal_error
    | ok out ↦ record { status = 200; content_type = "application/json"; body = bytes out }
  ]

  unfoldable pub handle_webhook_validate : HttpRequest → HttpResponse
  handle_webhook_validate req = elim (parse_request req) [
    | err e ↦ http_error e status_bad_request
    | ok a ↦ write_review (review a)
  ]
