-- ===== src/Gentls/Tests.antt =====
-- Tests and instances for Gentls.antt: the files are a map, and every signature succeeds.
use cel_admission_webhook.Common.{
  zero, suc, ◌*◌, ℕ, ◌≡◌, refl, sym, ◌∙◌, ap, [], ◌∷◌, eq_iff, eq_refl, arith,
}
use cel_admission_webhook.Common.Errors.{ok}
use cel_admission_webhook.Common.Dict.{Dict, lookup, insert, lookup-insert}
use cel_admission_webhook.Pki.{
  hour, Bytes, Crypto, CertificateKeyPair, after, set_bytes, clear_sign, serial_number,
  populate_template, encoded_pair, encode_key_pair, issue, as_authority, restrict_domains,
  generate_ca, create_certificate,
}
use cel_admission_webhook.Pki.Tests.{server}
use cel_admission_webhook.Gentls.{WriteFile, generate_and_write_certificates}
use cel_admission_webhook.Gentls.Laws.{FileLaws}

abbrev sevens : ℕ → Bytes
sevens zero = []
sevens (suc n) = 7 ∷ sevens n

abbrev signing : Crypto ℕ
signing = record {
  PublicKey = ℕ;
  PrivateKey = ℕ;
  generate_key = λ s. (ok (s, s), suc s);
  rand_read = λ n s. (ok (sevens n), suc s);
  now = λ s. (700 * hour, s);
  x509_create_certificate = λ template parent key signer s. (ok (3 ∷ []), s);
  parse_certificate = λ der. ok server;
  marshal_pkcs8_private_key = λ k. ok (k ∷ []);
  pem_encode = λ _ der. der;
}

abbrev to_map : WriteFile (Dict Bytes)
to_map name b mode files = (ok tt, insert name b files)

laws : FileLaws to_map
laws = record {
  contents = λ files name. lookup name files;
  write-contents = λ name b mode f h.
      ap (λ q. lookup name q.1) (sym h) ∙ ground (arith, lookup-insert name name b f, eq_refl name);
  write-others =
      λ name other b mode f differ. ground (arith, lookup-insert name other b f, eq_iff name other);
}

abbrev ca : CertificateKeyPair ℕ
ca = record {
  private_key_pem = 5 ∷ [];
  certificate_pem = 2 ∷ [];
  certificate = server;
  private_key = 5;
}

abbrev pair : CertificateKeyPair ℕ
pair = record {
  private_key_pem = 7 ∷ [];
  certificate_pem = 2 ∷ [];
  certificate = server;
  private_key = 7;
}

abbrev written : Dict Bytes
written = ("ca.pem", 2 ∷ []) ∷ ("server.pem", 2 ∷ []) ∷ ("server-key.pem", 7 ∷ []) ∷ []

ran : generate_and_write_certificates signing to_map "example.com" (5, []) ≡ (ok tt, (9, written))
unfolding generate_and_write_certificates generate_ca create_certificate populate_template issue
    serial_number after encode_key_pair encoded_pair as_authority restrict_domains set_bytes
    clear_sign insert
ran = refl
