-- ===== src/Pki/Laws.antt =====
-- What the certificates of Pki.antt hold.
use cel_admission_webhook.Common.{
  ℕ, suc, ◌+◌, ◌*◌, ◌%◌, ◌^◌, ◌<◌, ◌≤◌, ◌≡◌, refl, sym, ◌∙◌, subst, ap, String, Bool, true, false,
  ◌&&◌, List, [], ◌∷◌, length, All, arith,
}
use native.Mathlib.Nat.{mul-le-mul_right, mul_comm, mul_assoc, pow-suc}
use cel_admission_webhook.Common.Errors.{Result, ok, err}
use cel_admission_webhook.Pki.{
  Try, Bytes, after, Certificate, client_auth, server_auth, CaConfig, CertificateKeyPair, Crypto,
  set_bytes, clear_sign, serial_number, populate_template, encode_key_pair, encoded_pair, issue,
  restrict_domains, as_authority, generate_ca, create_certificate,
}

-- The fields that a certificate takes from its template. The instants are left out: they are
-- rounded to seconds. A certificate says whether it is an authority's only with valid basic
-- constraints.
pub record IsMadeFrom (c template : Certificate) : Type 0 where
  pub serial : c.serial_number ≡ template.serial_number
  pub name : c.common_name ≡ template.common_name
  pub usage : c.key_usage ≡ template.key_usage
  pub ext_usage : c.ext_key_usage ≡ template.ext_key_usage
  pub basic : c.basic_constraints_valid ≡ template.basic_constraints_valid
  pub ca : c.is_ca ≡ (template.basic_constraints_valid && template.is_ca)
  pub domains : c.permitted_dns_domains ≡ template.permitted_dns_domains
  pub hosts : c.dns_names ≡ template.dns_names

-- `rand.Read` fills the slice with bytes; a signed certificate is made from its template.
pub record CryptoLaws {S : Type 0} (crypto : Crypto S) : Type 0 where
  pub rand_read-length :
      (n : ℕ) (s : S) {b : Bytes} {t : S} → crypto.rand_read n s ≡ (ok b, t) → length b ≡ n
  pub rand_read-All :
      (n : ℕ) (s : S) {b : Bytes} {t : S} → crypto.rand_read n s ≡ (ok b, t) → All (λ x. x < 256) b
  pub x509-IsMadeFrom :
      (template parent : Certificate) (key : crypto.PublicKey) (signer : crypto.PrivateKey) (s : S)
      {der : Bytes} {t : S} {c : Certificate}
      → crypto.x509_create_certificate template parent key signer s ≡ (ok der, t)
      → crypto.parse_certificate der ≡ ok c
      → IsMadeFrom c template

pub after-eq-ok :
    {S A B : Type 0} (r : Result A × S) (next : A → Try S B) {b : B} {u : S}
    → after r next ≡ (ok b, u)
    → (a : A) × (t : S) × (r ≡ (ok a, t)) × (next a t ≡ (ok b, u))
unfolding after
after-eq-ok (err e, t) next h = absurd (cc)
after-eq-ok (ok a, t) next h = (a, t, refl, h)

head-le : (n b : ℕ) → b < 256 → suc (n * 256 + b) ≤ suc n * 256
head-le n b h = omega arith

head-below : (b : ℕ) → suc (0 * 256 + b % 128) ≤ 128
head-below b = omega arith

top_bits : (n : ℕ) → n ≡ 19 → 128 * 256 ^ n ≡ 2 ^ 159
top_bits n h = rw (h) refl

return-injective :
    {S A : Type 0} {a b : A} {s t : S} → ◌≡◌ {A = Result A × S} (ok a, s) (ok b, t) → a ≡ b
return-injective h = cc

lifted :
    {S A : Type 0} {r : Result A} {a : A} {s t : S}
    → ◌≡◌ {A = Result A × S} (r, s) (ok a, t)
    → r ≡ ok a
lifted h = ap (λ q. q.0) h

set_bytes-bound :
    (bs : Bytes) (n : ℕ) → All (λ x. x < 256) bs → set_bytes n bs < suc n * 256 ^ length bs
unfolding set_bytes
set_bytes-bound [] n h = omega arith
set_bytes-bound (b ∷ bs) n (h, hs) =
    let rest = set_bytes-bound bs (n * 256 + b) hs in
    let larger = mul-le-mul_right (256 ^ length bs) (head-le n b h) in
    rw
      (
        pow-suc 256 (length bs),
        mul_comm (256 ^ length bs) 256,
        sym (mul_assoc (suc n) 256 (256 ^ length bs)),
      )
      omega arith

clear_sign-bound :
    (b : Bytes) → length b ≡ 20 → All (λ x. x < 256) b → set_bytes 0 (clear_sign b) < 2 ^ 159
unfolding clear_sign set_bytes
clear_sign-bound [] e h = absurd (omega arith)
clear_sign-bound (b ∷ bs) e (h, hs) =
    let below = set_bytes-bound bs (0 * 256 + b % 128) hs in
    let larger = mul-le-mul_right (256 ^ length bs) (head-below b) in
    let exact = top_bits (length bs) (omega arith) in omega arith

authority_ca : {valid ca : Bool} → valid ≡ true → ca ≡ true → (valid && ca) ≡ true
authority_ca v c = ground arith

no_ca : (valid : Bool) {ca : Bool} → ca ≡ false → (valid && ca) ≡ false
no_ca valid c = ground arith

module _ {S : Type 0} {crypto : Crypto S} (laws : CryptoLaws crypto) where
  open crypto use {PrivateKey, x509_create_certificate, parse_certificate, pem_encode}

  -- A serial number is below 2 ^ 159: it is not negative as 20 bytes, when `rand.Read` fills the
  -- slice with bytes.
  pub serial_number-bound :
      (s : S) {sn : ℕ} {t : S} → serial_number crypto s ≡ (ok sn, t) → sn < 2 ^ 159
  unfolding serial_number
  serial_number-bound s h =
      let (b, u, read, made) = after-eq-ok (crypto.rand_read 20 s) _ h in
      subst (λ v. v < 2 ^ 159) (cc)
        (clear_sign-bound b (laws.rand_read-length 20 s read) (laws.rand_read-All 20 s read))

  -- What a template holds of its arguments.
  populate_template-IsMadeFrom :
      (name : String) (expiry : ℕ) (s : S) {c : Certificate} {t : S}
      → populate_template crypto name expiry s ≡ (ok c, t)
      → (c.serial_number < 2 ^ 159)
        × (c.common_name ≡ name)
        × (c.basic_constraints_valid ≡ true)
        × (c.is_ca ≡ false)
        × (c.key_usage.cert_sign ≡ false)
        × (c.permitted_dns_domains ≡ [])
  unfolding populate_template after
  populate_template-IsMadeFrom name expiry s h =
      let (sn, u, read, made) = after-eq-ok (serial_number crypto s) _ h in
      let bound = serial_number-bound s read in
      subst
        (λ c.
          (c.serial_number < 2 ^ 159)
          × (c.common_name ≡ name)
          × (c.basic_constraints_valid ≡ true)
          × (c.is_ca ≡ false)
          × (c.key_usage.cert_sign ≡ false)
          × (c.permitted_dns_domains ≡ []))
        (return-injective made) (bound, refl, refl, refl, refl, refl)

  -- The certificate was parsed from what signing a template with the key of a parent gave.
  abbrev pub IsSigned : Certificate → PrivateKey → Certificate → Type 0
  IsSigned parent signer c =
      (template : Certificate) × (key : crypto.PublicKey) × (s : S) × (der : Bytes) × (t : S)
      × (x509_create_certificate template parent key signer s ≡ (ok der, t))
      × (parse_certificate der ≡ ok c)

  encoded_pair-certificate :
      (c : Certificate) (r : Result Bytes) {pems : Bytes × Bytes}
      → encoded_pair crypto c r ≡ ok pems
      → pems.0 ≡ pem_encode "CERTIFICATE" c.raw
  unfolding encoded_pair
  encoded_pair-certificate c (err e) h = absurd (cc)
  encoded_pair-certificate c (ok der) h = cc

  encode_key_pair-certificate :
      (c : Certificate) (priv : PrivateKey) {pems : Bytes × Bytes}
      → encode_key_pair crypto c priv ≡ ok pems
      → pems.0 ≡ pem_encode "CERTIFICATE" c.raw
  unfolding encode_key_pair
  encode_key_pair-certificate c priv h = encoded_pair-certificate c _ h

  issue-IsMadeFrom :
      (template parent : Certificate) (key : crypto.PublicKey) (signer priv : PrivateKey) (s : S)
      {p : CertificateKeyPair PrivateKey} {t : S}
      → issue crypto template parent key signer priv s ≡ (ok p, t)
      → IsMadeFrom p.certificate template
        × (p.certificate_pem ≡ pem_encode "CERTIFICATE" p.certificate.raw)
        × IsSigned parent signer p.certificate
  unfolding issue
  issue-IsMadeFrom template parent key signer priv s h =
      let (der, u, signed, h1) =
        after-eq-ok (x509_create_certificate template parent key signer s) _ h in
      let (c, v, parsed, h2) = after-eq-ok (parse_certificate der, u) _ h1 in
      let (pems, w, encoded, made) = after-eq-ok (encode_key_pair crypto c priv, v) _ h2 in
      let from = laws.x509-IsMadeFrom template parent key signer s signed (lifted parsed) in
      subst
        (λ p.
          IsMadeFrom p.certificate template
          × (p.certificate_pem ≡ pem_encode "CERTIFICATE" p.certificate.raw)
          × IsSigned parent signer p.certificate)
        (return-injective made)
        (
          from,
          encode_key_pair-certificate c priv (lifted encoded),
          (template, key, s, der, u, signed, lifted parsed),
        )

  restrict_domains-all :
      (ds : List String) (c : Certificate)
      → c.permitted_dns_domains ≡ []
      → ((restrict_domains ds c).basic_constraints_valid ≡ c.basic_constraints_valid)
        × ((restrict_domains ds c).is_ca ≡ c.is_ca)
        × ((restrict_domains ds c).key_usage ≡ c.key_usage)
        × ((restrict_domains ds c).common_name ≡ c.common_name)
        × ((restrict_domains ds c).serial_number ≡ c.serial_number)
        × ((restrict_domains ds c).permitted_dns_domains ≡ ds)
  unfolding restrict_domains
  restrict_domains-all [] c h = (refl, refl, refl, refl, refl, h)
  restrict_domains-all (d ∷ ds) c h = (refl, refl, refl, refl, refl, refl)

  -- A pair that `GenerateCA` returns holds the certificate of an authority: its basic constraints are
  -- valid and say so, it may sign certificates, has the name and the permitted domains of the configuration and a serial number below 2 ^ 159,
  -- and its PEM text encodes that certificate, when `rand.Read` fills the slice with bytes and a
  -- signed certificate is made from its template.
  pub generate_ca-authority :
      (config : CaConfig) (s : S) {p : CertificateKeyPair PrivateKey} {t : S}
      → generate_ca crypto config s ≡ (ok p, t)
      → (p.certificate.basic_constraints_valid ≡ true)
        × (p.certificate.is_ca ≡ true)
        × (p.certificate.key_usage.cert_sign ≡ true)
        × (p.certificate.common_name ≡ config.common_name)
        × (p.certificate.permitted_dns_domains ≡ config.permitted_dns_domains)
        × (p.certificate.serial_number < 2 ^ 159)
        × (p.certificate_pem ≡ pem_encode "CERTIFICATE" p.certificate.raw)
  unfolding generate_ca as_authority
  generate_ca-authority config s h =
      let (keys, u, generated, h1) = after-eq-ok (crypto.generate_key s) _ h in
      let (c, v, populated, h2) =
        after-eq-ok (populate_template crypto config.common_name config.expiry u) _ h1 in
      let (serial, name, basic, ca, usage, domains) =
        populate_template-IsMadeFrom config.common_name config.expiry u populated in
      let (from, pem, signed) = issue-IsMadeFrom _ _ keys.0 keys.1 keys.1 v h2 in
      let (valid, is_ca, usages, names, serials, permitted) =
        restrict_domains-all config.permitted_dns_domains
          (record c { is_ca = true; key_usage = record c.key_usage { cert_sign = true } })
          domains in
      (
        from.basic ∙ (valid ∙ basic),
        from.ca ∙ authority_ca (valid ∙ basic) is_ca,
        ap (λ k. k.cert_sign) (from.usage ∙ usages),
        from.name ∙ (names ∙ name),
        from.domains ∙ permitted,
        rw (from.serial, serials) serial,
        pem,
      )

  -- A pair that `CreateCertificate` returns holds the certificate of a server: it names the host, is
  -- for clients and servers, is no authority and may not sign, has a serial number below 2 ^ 159, is
  -- signed with the key of the authority, and its PEM text encodes it, when `rand.Read` fills the
  -- slice with bytes and a signed certificate is made from its template.
  pub create_certificate-server :
      (c : CertificateKeyPair PrivateKey) (host : String) (expiry : ℕ) (s : S)
      {p : CertificateKeyPair PrivateKey} {t : S}
      → create_certificate crypto c host expiry s ≡ (ok p, t)
      → (p.certificate.dns_names ≡ host ∷ [])
        × (p.certificate.ext_key_usage ≡ client_auth ∷ server_auth ∷ [])
        × (p.certificate.is_ca ≡ false)
        × (p.certificate.key_usage.cert_sign ≡ false)
        × (p.certificate.serial_number < 2 ^ 159)
        × (p.certificate_pem ≡ pem_encode "CERTIFICATE" p.certificate.raw)
        × IsSigned c.certificate c.private_key p.certificate
  unfolding create_certificate
  create_certificate-server c host expiry s h =
      let (keys, u, generated, h1) = after-eq-ok (crypto.generate_key s) _ h in
      let (template, v, populated, h2) =
        after-eq-ok (populate_template crypto host expiry u) _ h1 in
      let (serial, name, basic, ca, usage, domains) =
        populate_template-IsMadeFrom host expiry u populated in
      let (from, pem, signed) = issue-IsMadeFrom _ c.certificate keys.0 c.private_key keys.1 v h2 in
      (
        from.hosts,
        from.ext_usage,
        from.ca ∙ no_ca _ ca,
        ap (λ k. k.cert_sign) from.usage ∙ usage,
        rw (from.serial) serial,
        pem,
        signed,
      )
