-- ===== src/Webhook.antt =====
-- The webhook server, pkg/webhook/server.go: the answer to a review (Review), the HTTP handler
-- (Handler), the watch on the TLS files (Watch) the serving loop (Serve),
-- and the loop with the watch (Watched).
pub mod Review
pub mod Handler
pub mod Watch
pub mod Serve
pub mod Watched
use cel_admission_webhook.Common.{ℕ, String}

-- The server's fields, without its lock.
pub record Webhook (Validator Interfaces Decoder : Type 0) : Type 0 where
  pub port : ℕ
  pub validator : Validator
  pub object_interfaces : Interfaces
  pub decoder : Decoder
  pub addr : String
  pub cert_file : String
  pub key_file : String

-- `New`, with `serializer.NewCodecFactory(scheme).UniversalDeserializer()` and
-- `admission.NewObjectInterfacesFromScheme`.
unfoldable pub new_webhook :
    {Scheme Validator Interfaces Decoder : Type 0}
    → (Scheme → Decoder)
    → (Scheme → Interfaces)
    → String
    → String
    → String
    → Scheme
    → Validator
    → Webhook Validator Interfaces Decoder
new_webhook universal_deserializer interfaces_from_scheme addr cert_file key_file scheme validator =
    record {
      port = 0;
      validator = validator;
      object_interfaces = interfaces_from_scheme scheme;
      decoder = universal_deserializer scheme;
      addr = addr;
      cert_file = cert_file;
      key_file = key_file;
    }
