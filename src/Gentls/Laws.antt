-- ===== src/Gentls/Laws.antt =====
-- What gentls leaves behind.
use cel_admission_webhook.Common.{
  false, ◌==◌, eq_iff, arith, ℕ, ◌≡◌, ◌≢◌, refl, sym, ◌∙◌, ap, String, Option, some, [],
}
use cel_admission_webhook.Common.Errors.{ok}
use cel_admission_webhook.Pki.{
  Try, Bytes, Crypto, CertificateKeyPair, CaConfig, generate_ca, create_certificate,
}
use cel_admission_webhook.Pki.Laws.{after-eq-ok}
use cel_admission_webhook.Gentls.{
  WriteFile, on_crypto, on_files, one_year, read_write, generate_and_write_certificates,
}

-- A file that was written without an error holds what was written; no other file changes.
pub record FileLaws {F : Type 0} (write_file : WriteFile F) : Type 0 where
  pub contents : F → String → Option Bytes
  pub write-contents :
      (name : String) (b : Bytes) (mode : ℕ) (f : F) {u : Unit} {g : F}
      → write_file name b mode f ≡ (ok u, g)
      → contents g name ≡ some b
  pub write-others :
      (name other : String) (b : Bytes) (mode : ℕ) (f : F)
      → name ≢ other
      → contents (write_file name b mode f).1 other ≡ contents f other

abbrev pub self_signed : CaConfig
self_signed = record { common_name = "SelfSigned"; permitted_dns_domains = []; expiry = 0 }

differ_text : (a b : String) → (a == b) ≡ false → a ≢ b
differ_text a b h = ground (arith, eq_iff a b)

-- A step that succeeds does so on its own part of the state, and keeps the other.
module _ {S F A : Type 0} where
  on_crypto-eq-ok :
      (m : Try S A) {sf tg : S × F} {a : A}
      → on_crypto m sf ≡ (ok a, tg)
      → (m sf.0 ≡ (ok a, tg.0)) × (sf.1 ≡ tg.1)
  on_crypto-eq-ok m h = (ap (λ q. (q.0, q.1.0)) h, ap (λ q. q.1.1) h)

  on_files-eq-ok :
      (m : Try F A) {sf tg : S × F} {a : A}
      → on_files m sf ≡ (ok a, tg)
      → (m sf.1 ≡ (ok a, tg.1)) × (sf.0 ≡ tg.0)
  on_files-eq-ok m h = (ap (λ q. (q.0, q.1.1)) h, ap (λ q. q.1.0) h)

module _ {F : Type 0} {write_file : WriteFile F} (laws : FileLaws write_file) where
  open laws use {contents}

  kept :
      (name other : String) (b : Bytes) (f : F) {u : Unit} {g : F}
      → name ≢ other
      → write_file name b read_write f ≡ (ok u, g)
      → contents g other ≡ contents f other
  kept name other b f differ h =
      sym (ap (λ q. contents q.1 other) h) ∙ laws.write-others name other b read_write f differ

  -- A run of gentls without an error has made an authority and a certificate that the authority
  -- issued for the host, and leaves the certificates of both and the key of the server in their
  -- files, when a written file holds what was written and no other file changes.
  pub generate_and_write-files :
      {S : Type 0} (crypto : Crypto S) (host : String) (s : S) (f : F) {u : Unit} {t : S} {g : F}
      → generate_and_write_certificates crypto write_file host (s, f) ≡ (ok u, (t, g))
      → (ca pair : CertificateKeyPair crypto.PrivateKey) × (s1 : S) × (generate_ca crypto
            self_signed s
          ≡ (ok ca, s1))
        × (create_certificate crypto ca host one_year s1 ≡ (ok pair, t))
        × (contents g "ca.pem" ≡ some ca.certificate_pem)
        × (contents g "server.pem" ≡ some pair.certificate_pem)
        × (contents g "server-key.pem" ≡ some pair.private_key_pem)
  unfolding generate_and_write_certificates
  generate_and_write-files crypto host s f h =
      let (ca, s1f1, made, h1) = after-eq-ok _ _ h in
      let (_, s2f2, wrote_ca, h2) = after-eq-ok _ _ h1 in
      let (pair, s3f3, issued, h3) = after-eq-ok _ _ h2 in
      let (_, s4f4, wrote_cert, h4) = after-eq-ok _ _ h3 in
      let (made_ca, _) = on_crypto-eq-ok (generate_ca crypto self_signed) made in
      let (write_ca, s12) =
        on_files-eq-ok (write_file "ca.pem" ca.certificate_pem read_write) wrote_ca in
      let (made_pair, f23) = on_crypto-eq-ok (create_certificate crypto ca host one_year) issued in
      let (write_cert, s34) =
        on_files-eq-ok (write_file "server.pem" pair.certificate_pem read_write) wrote_cert in
      let (write_key, s45) =
        on_files-eq-ok (write_file "server-key.pem" pair.private_key_pem read_write) h4 in
      let in_ca = laws.write-contents "ca.pem" ca.certificate_pem read_write s1f1.1 write_ca in
      let in_cert =
        laws.write-contents "server.pem" pair.certificate_pem read_write s3f3.1 write_cert in
      let in_key =
        laws.write-contents "server-key.pem" pair.private_key_pem read_write s4f4.1 write_key in
      (
        ca,
        pair,
        s1f1.0,
        made_ca,
        ap (create_certificate crypto ca host one_year) s12
            ∙ (made_pair ∙ ap (λ s. (ok pair, s)) (s34 ∙ s45)),
        kept "server-key.pem" "ca.pem" pair.private_key_pem s4f4.1
              (differ_text "server-key.pem" "ca.pem" refl) write_key
            ∙ (kept "server.pem" "ca.pem" pair.certificate_pem s3f3.1
                  (differ_text "server.pem" "ca.pem" refl) write_cert
                ∙ (ap (λ f. contents f "ca.pem") (sym f23) ∙ in_ca)),
        kept "server-key.pem" "server.pem" pair.private_key_pem s4f4.1
              (differ_text "server-key.pem" "server.pem" refl) write_key
            ∙ in_cert,
        in_key,
      )
