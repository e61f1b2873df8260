-- ===== src/Gentls.antt =====
-- cmd/gentls/main.go: the tool that writes the certificates of a self-signed authority and of a
-- server. The state is that of the random bytes and the clock, and the files. An `error` without a
-- value is a result with no content.
use cel_admission_webhook.Common.{ℕ, ◌+◌, ◌*◌, String, List, [], ◌∷◌}
use cel_admission_webhook.Common.Errors.{Result, ok, err}
use cel_admission_webhook.Pki.{
  Try, Bytes, Crypto, CertificateKeyPair, hour, ◌>>=◌, generate_ca, create_certificate,
}
pub mod Laws
pub mod Tests

-- `os.WriteFile`: the name, the contents and the permissions.
abbrev pub WriteFile : Type 0 → Type 0
WriteFile F = String → Bytes → ℕ → Try F Unit

module _ {S F A : Type 0} where
  abbrev pub on_crypto : Try S A → Try (S × F) A
  on_crypto m (s, f) = ((m s).0, ((m s).1, f))

  abbrev pub on_files : Try F A → Try (S × F) A
  on_files m (s, f) = ((m f).0, (s, (m f).1))

abbrev pub one_year : ℕ
one_year = hour * 24 * 365

-- The permissions 0666.
abbrev pub read_write : ℕ
read_write = 6 * 64 + 6 * 8 + 6

unfoldable pub generate_and_write_certificates :
    {S F : Type 0} → Crypto S → WriteFile F → String → Try (S × F) Unit
generate_and_write_certificates crypto write_file host_name = do
  ca ← on_crypto (
      generate_ca crypto
        (record { common_name = "SelfSigned"; permitted_dns_domains = []; expiry = 0 }))
  _ ← on_files (write_file "ca.pem" ca.certificate_pem read_write)
  key_pair ← on_crypto (create_certificate crypto ca host_name one_year)
  _ ← on_files (write_file "server.pem" key_pair.certificate_pem read_write)
  on_files (write_file "server-key.pem" key_pair.private_key_pem read_write)

-- The end of `main`: the exit status and what is printed.
abbrev pub exit_of : Result {0} Unit → ℕ × List String
exit_of (ok done) = (0, [])
exit_of (err e) = (1, e.message ∷ [])

-- The flag `host` when it is not given.
abbrev pub default_host : String
default_host = "example.com"

unfoldable pub main_gentls :
    {S F : Type 0} → Crypto S → WriteFile F → String → S × F → (ℕ × List String) × (S × F)
unfolding generate_and_write_certificates
main_gentls crypto write_file host_name s =
    let (result, t) = generate_and_write_certificates crypto write_file host_name s in
    (exit_of result, t)
