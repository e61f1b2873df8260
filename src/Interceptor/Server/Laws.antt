-- ===== src/Interceptor/Server/Laws.antt =====
-- How `runServer` ends.
use cel_admission_webhook.Common.{◌≢◌, Option, List, ◌≡◌, ◌↔◌, refl}
use cel_admission_webhook.Common.Errors.{Error, Result, ok, err}
use cel_admission_webhook.Interceptor.Server.{
  TlsConfig, Host, panicked, load_client_config, root_cas, certificates, run_server, serve,
  with_transport, with_url, with_config,
}

module _ (host : Host) where
  open host use {Config, Url, transport_config, parse_host}

  serve-ne-panicked :
      (u : Url) (roots : Option host.CertPool) (r : Result (List host.Certificate))
      → serve host u roots r ≢ panicked
  unfolding serve
  serve-ne-panicked u roots (ok certs) h = cc
  serve-ne-panicked u roots (err e) h = cc

  with_transport-panicked :
      (u : Url) (r : Result TlsConfig)
      → with_transport host u r ≡ panicked
      → (e : Error) × (r ≡ err e)
  unfolding with_transport
  with_transport-panicked u (ok tls) h = absurd (
      serve-ne-panicked u (root_cas host tls.ca_data) (certificates host tls.cert_data tls.key_data)
        h)
  with_transport-panicked u (err e) h = (e, refl)

  with_url-panicked :
      (tls : Result TlsConfig) (r : Result Url)
      → with_url host tls r ≡ panicked
      → (u : Url) × (e : Error) × (r ≡ ok u) × (tls ≡ err e)
  unfolding with_url
  with_url-panicked tls (ok u) h =
      let (e, same) = with_transport-panicked u tls h in (u, e, refl, same)
  with_url-panicked tls (err e) h = absurd (cc)

  with_config-panicked :
      (r : Result Config)
      → with_config host r ≡ panicked
      → (config : Config) × (u : Url) × (e : Error) × (r ≡ ok config)
        × (parse_host config ≡ ok u)
        × (transport_config config ≡ err e)
  unfolding with_config
  with_config-panicked (ok config) h =
      let (u, e, parsed, failed') =
        with_url-panicked (transport_config config) (parse_host config) h in
      (config, u, e, refl, parsed, failed')
  with_config-panicked (err e) h = absurd (cc)

-- The bug: the server panics where an error was dropped, exactly when there is a client
-- configuration whose host is a URL and which makes no transport.
pub run_server-panicked_iff :
    (host : Host)
    → (run_server host ≡ panicked) ↔ (
        (config : host.Config) × (u : host.Url) × (e : Error) × (load_client_config host
          ≡ ok config)
        × (host.parse_host config ≡ ok u)
        × (host.transport_config config ≡ err e))
unfolding run_server
run_server-panicked_iff host = (
  with_config-panicked host (load_client_config host),
  λ (config, u, e, loaded, parsed, broken).
      rw (loaded, with_config, parsed, with_url, broken, with_transport) refl,
)
