-- ===== src/Interceptor.antt =====
-- cmd/interceptor/main.go: the proxy that shows the custom API under the name of the native one. The
-- requests that name the native API are sent to the custom one, and the responses of the custom one
-- name the native API again.
pub mod Replace
pub mod Scanner
pub mod Decimal
pub mod Server
pub mod Laws
mod Tests
use cel_admission_webhook.Common.{
  ℕ, String, Bool, false, Option, none, some, if◌then◌else◌, List, [], ◌++◌, length,
}
use cel_admission_webhook.Common.Errors.{Error}
use cel_admission_webhook.Common.Dict.{Dict, insert}
use cel_admission_webhook.Interceptor.Replace.{Bytes, codes, contains, replace_all}
use cel_admission_webhook.Interceptor.Scanner.{lines}
use cel_admission_webhook.Interceptor.Decimal.{itoa}
use mathlib.Core.List.{flat_map}

abbrev pub native : Bytes
native = codes "admissionregistration.k8s.io/v1alpha1"

abbrev pub custom : Bytes
custom = codes "admissionregistration.x-k8s.io/v1alpha1"

-- What the proxy reads and sets of an `http.Request`; a content length of -1 is `none`. The reader of
-- the body may give its end together with the last bytes, as that of a known length does, or after them.
pub record Request : Type 0 where
  pub path : Bytes
  pub raw_path : Bytes
  pub header : Dict Bytes
  pub content_length : Option ℕ
  pub body : Bytes
  pub eof_with_data : Bool

-- An `http.Response` with the path of its request. Reading its body gives bytes, and an error when
-- it breaks off.
pub record Response : Type 0 where
  pub request_path : Bytes
  pub header : Dict Bytes
  pub content_length : Option ℕ
  pub body : Bytes
  pub read_error : Option Error

abbrev pub to_custom : Bytes → Bytes
to_custom b = replace_all b native custom

abbrev pub to_native : Bytes → Bytes
to_native b = replace_all b custom native

-- What the goroutine writes to the pipe: the lines that the scanner gives, one after the other.
unfoldable pub piped : Bool → Bytes → Bytes
piped eof_with_data body = flat_map to_custom (lines eof_with_data body)

-- `Rewrite`, with the requests `In` and `Out`. `set_url` is `ProxyRequest.SetURL`, which routes the
-- outgoing request to the API server.
unfoldable pub rewrite : (Request → Request) → Request → Request → Request
rewrite set_url request out =
    let routed = set_url out in
    if contains request.path native
    then record routed {
      body = piped request.eof_with_data request.body;
      eof_with_data = false;
      path = to_custom routed.path;
      raw_path = to_custom routed.raw_path;
      header = insert "Accept" (codes "application/json") routed.header;
      content_length = none;
    }
    else routed

-- `ModifyResponse`. The new body is read from memory.
unfoldable pub modify_response : Response → Option Error × Response
modify_response response =
    if contains response.request_path custom
    then (let b = to_native response.body in
        (
          response.read_error,
          record response {
            body = b;
            content_length = some (length b);
            header = insert "Content-Length" (itoa (length b)) response.header;
            read_error = none;
          },
        ))
    else (none, response)

-- One request through the proxy: the server answers the request that it is sent.
unfoldable pub exchange :
    (Request → Request) → (Request → Response) → Request → Request → Option Error × Response
exchange set_url serve request out =
    let sent = rewrite set_url request out in
    modify_response (record (serve sent) { request_path = sent.path })
