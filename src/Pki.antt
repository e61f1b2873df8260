-- ===== src/Pki.antt =====
-- pkg/pki/ca.go, cert.go and pool.go: the self-signed authority and the certificates that it issues.
-- Code that may fail and reads the source of random bytes or the clock takes and leaves a state.
-- An instant counts nanoseconds from one that lies before every run, and a lifetime is not negative.
use cel_admission_webhook.Common.{
  ℕ, suc, ◌+◌, ◌-◌, ◌*◌, ◌%◌, ◌^◌, String, Bool, true, false, List, [], ◌∷◌, if◌then◌else◌, nat_eq,
}
use cel_admission_webhook.Common.Errors.{Result, ok, err}
pub mod Laws
pub mod Tests

abbrev pub Bytes : Type 0
Bytes = List ℕ

abbrev pub Try : Type 0 → Type 0 → Type 0
Try S A = S → Result A × S

unfoldable pub after : {S A B : Type 0} → Result A × S → (A → Try S B) → Result B × S
after (err e, t) next = (err e, t)
after (ok a, t) next = next a t

infixl 5 ◌>>=◌
abbrev pub ◌>>=◌ : {S A B : Type 0} → Try S A → (A → Try S B) → Try S B
(m >>= next) s = after (m s) next

abbrev pub return : {S A : Type 0} → A → Try S A
return a s = (ok a, s)

abbrev pub lift : {S A : Type 0} → Result A → Try S A
lift r s = (r, s)

-- The bits of `x509.KeyUsage` that are set here.
pub record KeyUsage : Type 0 where
  pub key_encipherment : Bool
  pub digital_signature : Bool
  pub cert_sign : Bool

pub data ExtKeyUsage : Type 0 where
  client_auth : ExtKeyUsage
  server_auth : ExtKeyUsage

-- The fields of `x509.Certificate` that are read or set here.
pub record Certificate : Type 0 where
  pub raw : Bytes
  pub serial_number : ℕ
  pub common_name : String
  pub not_before : ℕ
  pub not_after : ℕ
  pub key_usage : KeyUsage
  pub ext_key_usage : List ExtKeyUsage
  pub basic_constraints_valid : Bool
  pub is_ca : Bool
  pub permitted_dns_domains_critical : Bool
  pub permitted_dns_domains : List String
  pub dns_names : List String

pub record CaConfig : Type 0 where
  pub common_name : String
  pub permitted_dns_domains : List String
  pub expiry : ℕ

pub record CertificateKeyPair (PrivateKey : Type 0) : Type 0 where
  pub private_key_pem : Bytes
  pub certificate_pem : Bytes
  pub certificate : Certificate
  pub private_key : PrivateKey

-- Go's crypto and encoding packages, with the source of random bytes and the clock.
pub record Crypto (S : Type 0) : Type 1 where
  pub PublicKey : Type 0
  pub PrivateKey : Type 0
  pub generate_key : Try S (PublicKey × PrivateKey)
  pub rand_read : ℕ → Try S Bytes
  pub now : S → ℕ × S
  pub x509_create_certificate : Certificate → Certificate → PublicKey → PrivateKey → Try S Bytes
  pub parse_certificate : Bytes → Result Certificate
  pub marshal_pkcs8_private_key : PrivateKey → Result Bytes
  pub pem_encode : String → Bytes → Bytes

abbrev pub minute : ℕ
minute = 60 * 1000000000

abbrev pub hour : ℕ
hour = 60 * minute

abbrev pub default_expiry : ℕ
default_expiry = 365 * 24 * hour

-- `new(big.Int).SetBytes(b)`, the first byte being the most significant one.
unfoldable pub set_bytes : ℕ → Bytes → ℕ
set_bytes n [] = n
set_bytes n (b ∷ bs) = set_bytes (n * 256 + b) bs

-- `b[0] = b[0] & 0x7f`: the seven lower bits.
unfoldable pub clear_sign : Bytes → Bytes
clear_sign [] = []
clear_sign (b ∷ bs) = b % 128 ∷ bs

unfoldable pub restrict_domains : List String → Certificate → Certificate
restrict_domains [] template = template
restrict_domains (domain ∷ domains) template = record template {
  permitted_dns_domains_critical = true;
  permitted_dns_domains = domain ∷ domains;
}

-- The template of an authority.
unfoldable pub as_authority : CaConfig → Certificate → Certificate
as_authority config template =
    restrict_domains config.permitted_dns_domains
      (record template { is_ca = true; key_usage = record template.key_usage { cert_sign = true } })

module _ {S : Type 0} (crypto : Crypto S) where
  open crypto use {
    PublicKey, PrivateKey, generate_key, rand_read, now, x509_create_certificate, parse_certificate,
    marshal_pkcs8_private_key, pem_encode,
  }

  unfoldable pub serial_number : Try S ℕ
  serial_number = do b ← rand_read 20; return (set_bytes 0 (clear_sign b))

  unfoldable pub populate_template : String → ℕ → Try S Certificate
  populate_template common_name expiry = do
    sn ← serial_number
    time ← λ s. (ok (now s).0, (now s).1)
    return (record {
      raw = [];
      serial_number = sn;
      common_name = common_name;
      not_before = time - 5 * minute;
      not_after = time + (if nat_eq expiry 0 then default_expiry else expiry);
      key_usage = record { key_encipherment = true; digital_signature = true; cert_sign = false };
      ext_key_usage = [];
      basic_constraints_valid = true;
      is_ca = false;
      permitted_dns_domains_critical = false;
      permitted_dns_domains = [];
      dns_names = [];
    })

  unfoldable pub encoded_pair : Certificate → Result Bytes → Result (Bytes × Bytes)
  encoded_pair cert (err e) = err e
  encoded_pair cert (ok priv_der) =
      ok (pem_encode "CERTIFICATE" cert.raw, pem_encode "PRIVATE KEY" priv_der)

  unfoldable pub encode_key_pair : Certificate → PrivateKey → Result (Bytes × Bytes)
  encode_key_pair cert priv = encoded_pair cert (marshal_pkcs8_private_key priv)

  -- The steps that `GenerateCA` and `CreateCertificate` share: sign, parse and encode.
  unfoldable pub issue :
      Certificate
      → Certificate
      → PublicKey
      → PrivateKey
      → PrivateKey
      → Try S (CertificateKeyPair PrivateKey)
  issue template parent key signer priv = do
    cert_der ← x509_create_certificate template parent key signer
    cert ← lift (parse_certificate cert_der)
    pems ← lift (encode_key_pair cert priv)
    return (record {
      private_key_pem = pems.1;
      certificate_pem = pems.0;
      certificate = cert;
      private_key = priv;
    })

  unfoldable pub generate_ca : CaConfig → Try S (CertificateKeyPair PrivateKey)
  generate_ca config = do
    keys ← generate_key
    template ← populate_template config.common_name config.expiry
    let authority = as_authority config template
    issue authority authority keys.0 keys.1 keys.1

  unfoldable pub create_certificate :
      CertificateKeyPair PrivateKey → String → ℕ → Try S (CertificateKeyPair PrivateKey)
  create_certificate c host_name expiry = do
    keys ← generate_key
    template ← populate_template host_name expiry
    let server = record template {
      dns_names = host_name ∷ [];
      ext_key_usage = client_auth ∷ server_auth ∷ [];
    }
    issue server c.certificate keys.0 c.private_key keys.1

-- `NewCertPoolFromCA` of pkg/pki/pool.go, with `x509.NewCertPool` and `AddCert`.
unfoldable pub new_cert_pool_from_ca :
    {Pool : Type 0} → Pool → (Certificate → Pool → Pool) → Certificate → Pool
new_cert_pool_from_ca new_cert_pool add_cert ca = add_cert ca new_cert_pool
