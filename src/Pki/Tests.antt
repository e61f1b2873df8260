-- ===== src/Pki/Tests.antt =====
-- Tests and instances for Pki.antt: a key is a number, the random bytes are all 200, and what a
-- signature gives for the two templates below is one byte.
use cel_admission_webhook.Common.{
  subst, ap, ℕ, zero, suc, length, All, if◌then◌else◌, ◌-◌, ◌+◌, ◌*◌, ◌<◌, ◌^◌, String, ◌≡◌, refl,
  Bool, true, false, not, ◌&&◌, ◌==◌, eq_iff, nat_eq, List, [], ◌∷◌, arith,
}
use cel_admission_webhook.Common.Errors.{Result, ok, err, errorf}
use cel_admission_webhook.Pki.{
  after, populate_template, issue, encode_key_pair, encoded_pair, as_authority, restrict_domains,
  Bytes, Certificate, KeyUsage, ExtKeyUsage, client_auth, server_auth, CaConfig, CertificateKeyPair,
  Crypto, minute, hour, default_expiry, set_bytes, clear_sign, serial_number, generate_ca,
  create_certificate,
}
use cel_admission_webhook.Pki.Laws.{
  IsMadeFrom, CryptoLaws, serial_number-bound, generate_ca-authority,
}

-- Comparing a template with the one that can be signed.
module _ {A : Type 0} (same : A → A → Bool) (sound : (a b : A) → same a b ≡ true → a ≡ b) where
  abbrev list_eq : List A → List A → Bool
  list_eq [] [] = true
  list_eq [] (y ∷ ys) = false
  list_eq (x ∷ xs) [] = false
  list_eq (x ∷ xs) (y ∷ ys) = same x y && list_eq xs ys

  list_eq_sound : (xs ys : List A) → list_eq xs ys ≡ true → xs ≡ ys
  list_eq_sound [] [] h = refl
  list_eq_sound [] (y ∷ ys) h = absurd (cc)
  list_eq_sound (x ∷ xs) [] h = absurd (cc)
  list_eq_sound (x ∷ xs) (y ∷ ys) h = ground (arith, sound x y, list_eq_sound xs ys)

abbrev bool_eq : Bool → Bool → Bool
bool_eq true b = b
bool_eq false b = not b

bool_eq_sound : (a b : Bool) → bool_eq a b ≡ true → a ≡ b
bool_eq_sound true true h = refl
bool_eq_sound true false h = absurd (cc)
bool_eq_sound false true h = absurd (cc)
bool_eq_sound false false h = refl

abbrev usage_eq : ExtKeyUsage → ExtKeyUsage → Bool
usage_eq client_auth client_auth = true
usage_eq client_auth server_auth = false
usage_eq server_auth client_auth = false
usage_eq server_auth server_auth = true

usage_eq_sound : (a b : ExtKeyUsage) → usage_eq a b ≡ true → a ≡ b
usage_eq_sound client_auth client_auth h = refl
usage_eq_sound client_auth server_auth h = absurd (cc)
usage_eq_sound server_auth client_auth h = absurd (cc)
usage_eq_sound server_auth server_auth h = refl

text_eq_sound : (a b : String) → (a == b) ≡ true → a ≡ b
text_eq_sound a b = (eq_iff a b).0

abbrev texts_eq : List String → List String → Bool
texts_eq = list_eq (λ a b. a == b) text_eq_sound

abbrev usages_eq : List ExtKeyUsage → List ExtKeyUsage → Bool
usages_eq = list_eq usage_eq usage_eq_sound

and_sound : {P Q : Type 0} (a b : Bool) → (a ≡ true → P) → (b ≡ true → Q) → (a && b) ≡ true → P × Q
and_sound true b p q h = (p refl, q h)
and_sound false b p q h = absurd (cc)

abbrev key_usage_eq : KeyUsage → KeyUsage → Bool
key_usage_eq a b =
    bool_eq a.key_encipherment b.key_encipherment
    && (bool_eq a.digital_signature b.digital_signature && bool_eq a.cert_sign b.cert_sign)

key_usage_eq_sound : (a b : KeyUsage) → key_usage_eq a b ≡ true → a ≡ b
key_usage_eq_sound a b h = ground (
  arith,
  bool_eq_sound a.key_encipherment b.key_encipherment,
  bool_eq_sound a.digital_signature b.digital_signature,
  bool_eq_sound a.cert_sign b.cert_sign,
)

nat_eq_sound : (a b : ℕ) → nat_eq a b ≡ true → a ≡ b
nat_eq_sound a b h = ground arith

unfoldable matches : Certificate → Certificate → Bool
matches c t =
    nat_eq c.serial_number t.serial_number
    && (c.common_name == t.common_name
        && (key_usage_eq c.key_usage t.key_usage
            && (usages_eq c.ext_key_usage t.ext_key_usage
                && (bool_eq c.basic_constraints_valid t.basic_constraints_valid
                    && (bool_eq c.is_ca (t.basic_constraints_valid && t.is_ca)
                        && (texts_eq c.permitted_dns_domains t.permitted_dns_domains
                            && texts_eq c.dns_names t.dns_names))))))

matches-IsMadeFrom : (c t : Certificate) → matches c t ≡ true → IsMadeFrom c t
unfolding matches
matches-IsMadeFrom c t h =
    let (serial, (name, (usage, (ext, (basic, (ca, (domains, hosts))))))) =
      and_sound _ _ (nat_eq_sound c.serial_number t.serial_number)
        (and_sound _ _ (text_eq_sound c.common_name t.common_name) (
          and_sound _ _ (key_usage_eq_sound c.key_usage t.key_usage) (
            and_sound _ _ (list_eq_sound usage_eq usage_eq_sound c.ext_key_usage t.ext_key_usage) (
              and_sound _ _ (bool_eq_sound c.basic_constraints_valid t.basic_constraints_valid) (
                and_sound _ _ (bool_eq_sound c.is_ca (t.basic_constraints_valid && t.is_ca)) (
                  and_sound _ _
                    (list_eq_sound (λ a b. a == b) text_eq_sound c.permitted_dns_domains
                      t.permitted_dns_domains)
                    (list_eq_sound (λ a b. a == b) text_eq_sound c.dns_names t.dns_names)))))))
        h in
    record {
      serial = serial;
      name = name;
      usage = usage;
      ext_usage = ext;
      basic = basic;
      ca = ca;
      domains = domains;
      hosts = hosts;
    }

-- The random bytes of a serial number, and the templates that can be signed.
abbrev two_hundreds : ℕ → Bytes
two_hundreds zero = []
two_hundreds (suc n) = 200 ∷ two_hundreds n

abbrev serial : ℕ
serial = set_bytes 0 (clear_sign (two_hundreds 20))

abbrev authority : Certificate
authority = record {
  raw = 1 ∷ [];
  serial_number = serial;
  common_name = "SelfSigned";
  not_before = 700 * hour - 5 * minute;
  not_after = 700 * hour + default_expiry;
  key_usage = record { key_encipherment = true; digital_signature = true; cert_sign = true };
  ext_key_usage = [];
  basic_constraints_valid = true;
  is_ca = true;
  permitted_dns_domains_critical = true;
  permitted_dns_domains = "example.com" ∷ [];
  dns_names = [];
}

abbrev pub server : Certificate
server = record authority {
  raw = 2 ∷ [];
  common_name = "example.com";
  not_after = 700 * hour + hour;
  key_usage = record { key_encipherment = true; digital_signature = true; cert_sign = false };
  ext_key_usage = client_auth ∷ server_auth ∷ [];
  is_ca = false;
  permitted_dns_domains_critical = false;
  permitted_dns_domains = [];
  dns_names = "example.com" ∷ [];
}

unfoldable sign : Certificate → Result Bytes
sign t =
    if matches authority t
    then ok (1 ∷ [])
    else if matches server t
    then ok (2 ∷ [])
    else err (errorf "unknown template")

unfoldable parse : Bytes → Result Certificate
parse [] = err (errorf "empty")
parse (b ∷ bs) =
    if nat_eq b 1
    then ok authority
    else if nat_eq b 2
    then ok server
    else err (errorf "unknown certificate")

abbrev crypto : Crypto ℕ
crypto = record {
  PublicKey = ℕ;
  PrivateKey = ℕ;
  generate_key = λ s. (ok (s, s), suc s);
  rand_read = λ n s. (ok (two_hundreds n), suc s);
  now = λ s. (700 * hour, s);
  x509_create_certificate = λ template _ _ _ s. (sign template, s);
  parse_certificate = parse;
  marshal_pkcs8_private_key = λ k. ok (k ∷ []);
  pem_encode = λ _ der. der;
}

length-two_hundreds : (n : ℕ) → length (two_hundreds n) ≡ n
length-two_hundreds zero = refl
length-two_hundreds (suc n) = omega (arith, length-two_hundreds n)

two_hundreds-All : (n : ℕ) → All (λ x. x < 256) (two_hundreds n)
two_hundreds-All zero = tt
two_hundreds-All (suc n) = (omega arith, two_hundreds-All n)

made_from :
    (t : Certificate) (der : Bytes) (c : Certificate)
    → sign t ≡ ok der
    → parse der ≡ ok c
    → IsMadeFrom c t
unfolding sign parse
made_from t [] c signed parsed = absurd (cc)
made_from t (b ∷ bs) c signed parsed =
    ground (arith, matches-IsMadeFrom authority t, matches-IsMadeFrom server t)

ok_lem : {A : Type 0} {a b : A} {s t : ℕ} → ◌≡◌ {A = Result A × ℕ} (ok a, s) (ok b, t) → a ≡ b
ok_lem h = cc

laws : CryptoLaws crypto
laws = record {
  rand_read-length = λ n s h. subst (λ b. length b ≡ n) (ok_lem h) (length-two_hundreds n);
  rand_read-All = λ n s h. subst (All (λ x. x < 256)) (ok_lem h) (two_hundreds-All n);
  x509-IsMadeFrom = λ template parent key signer s {der} {t} {c} signed parsed.
      made_from template der c (ap (λ q. q.0) signed) parsed;
}

read : serial_number crypto 0 ≡ (ok serial, 1)
unfolding serial_number after set_bytes clear_sign
read = refl

serial_number-bound_example : serial < 2 ^ 159
serial_number-bound_example = serial_number-bound laws 0 {sn = serial} {t = 1} read

abbrev config : CaConfig
config = record {
  common_name = "SelfSigned";
  permitted_dns_domains = "example.com" ∷ [];
  expiry = 0;
}

abbrev ca : CertificateKeyPair ℕ
ca = record {
  private_key_pem = 5 ∷ [];
  certificate_pem = 1 ∷ [];
  certificate = authority;
  private_key = 5;
}

generated : generate_ca crypto config 5 ≡ (ok ca, 7)
unfolding generate_ca populate_template issue serial_number after sign parse matches encode_key_pair
    encoded_pair as_authority restrict_domains set_bytes clear_sign
generated = refl

generate_ca-authority_example :
    (authority.basic_constraints_valid ≡ true)
    × (authority.is_ca ≡ true)
    × (authority.key_usage.cert_sign ≡ true)
    × (authority.common_name ≡ "SelfSigned")
    × (authority.permitted_dns_domains ≡ "example.com" ∷ [])
    × (authority.serial_number < 2 ^ 159)
    × (ca.certificate_pem ≡ crypto.pem_encode "CERTIFICATE" authority.raw)
generate_ca-authority_example = generate_ca-authority laws config 5 {p = ca} {t = 7} generated

abbrev pair : CertificateKeyPair ℕ
pair = record {
  private_key_pem = 9 ∷ [];
  certificate_pem = 2 ∷ [];
  certificate = server;
  private_key = 9;
}

issued : create_certificate crypto ca "example.com" hour 9 ≡ (ok pair, 11)
unfolding create_certificate populate_template issue serial_number after sign parse matches
    encode_key_pair encoded_pair set_bytes clear_sign
issued = refl
