-- ===== src/Interceptor/Server.antt =====
-- `main`, `runServer` and `loadClientConfig` of cmd/interceptor/main.go: from the client configuration to the
-- proxy that listens. What client-go, net/url and crypto do is the record `Host`.
use cel_admission_webhook.Common.{ℕ, String, Option, none, some, List, [], ◌∷◌}
use cel_admission_webhook.Common.Errors.{or_else, Error, Result, ok, err}
use cel_admission_webhook.Interceptor.Replace.{Bytes}
pub mod Laws

-- `transport.TLSConfig`, as far as it is read.
pub record TlsConfig : Type 0 where
  pub ca_data : Bytes
  pub cert_data : Bytes
  pub key_data : Bytes

pub record Host : Type 1 where
  pub Config : Type 0
  pub Url : Type 0
  pub CertPool : Type 0
  pub Certificate : Type 0
  -- `ClientConfig()` of the loading rules, and `rest.InClusterConfig()`
  pub client_config : Result Config
  pub in_cluster_config : Result Config
  -- the `TLS` of what `TransportConfig()` returns, or its error
  pub transport_config : Config → Result TlsConfig
  pub parse_host : Config → Result Url
  pub pool_of_pem : Bytes → CertPool
  pub x509_key_pair : Bytes → Bytes → Result Certificate
  -- `http.ListenAndServeTLS`, which returns only with an error
  pub listen_and_serve_tls : Url → Option CertPool → List Certificate → Error

-- How `runServer` ends: with an error, or by a panic.
pub data Ending : Type 0 where
  failed : Error → Ending
  panicked : Ending

module _ (host : Host) where
  open host use {
    Config, Url, CertPool, Certificate, client_config, in_cluster_config, transport_config,
    parse_host, pool_of_pem, x509_key_pair, listen_and_serve_tls,
  }

  unfoldable pub load_client_config : Result Config
  load_client_config = or_else client_config in_cluster_config

  -- `if len(t.TLS.CAData) > 0`
  unfoldable pub root_cas : Bytes → Option CertPool
  root_cas [] = none
  root_cas (b ∷ bs) = some (pool_of_pem (b ∷ bs))

  -- `if len(t.TLS.CertData) > 0 && len(t.TLS.KeyData) > 0`
  unfoldable pub certificates : Bytes → Bytes → Result (List Certificate)
  certificates [] key = ok []
  certificates (b ∷ bs) [] = ok []
  certificates (b ∷ bs) (k ∷ ks) = one (x509_key_pair (b ∷ bs) (k ∷ ks))
    where
      one : Result Certificate → Result (List Certificate)
      one (ok c) = ok (c ∷ [])
      one (err e) = err e

  serve : Url → Option CertPool → Result (List Certificate) → Ending
  serve u roots (ok certs) = failed (listen_and_serve_tls u roots certs)
  serve u roots (err e) = failed e

  -- `t, _ := config.TransportConfig()` drops the error, and `t` is nil then.
  with_transport : Url → Result TlsConfig → Ending
  unfolding serve
  with_transport u (ok tls) =
      serve u (root_cas tls.ca_data) (certificates tls.cert_data tls.key_data)
  with_transport u (err e) = panicked

  with_url : Result TlsConfig → Result Url → Ending
  unfolding with_transport
  with_url tls (ok u) = with_transport u tls
  with_url tls (err e) = failed e

  with_config : Result Config → Ending
  unfolding with_url
  with_config (ok config) = with_url (transport_config config) (parse_host config)
  with_config (err e) = failed e

  unfoldable pub run_server : Ending
  unfolding load_client_config with_config
  run_server = with_config load_client_config

  -- The end of `main`: the exit status and what it prints; a panic ends a Go program with status 2.
  abbrev pub exit_of : Ending → ℕ × List String
  exit_of (failed e) = (1, e.message ∷ [])
  exit_of panicked = (2, [])

  unfoldable pub main_interceptor : ℕ × List String
  unfolding run_server
  main_interceptor = exit_of run_server
