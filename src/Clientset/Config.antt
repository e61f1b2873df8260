-- ===== src/Clientset/Config.antt =====
-- The making of the clients from a rest.Config: clientset.go, and
-- typed/admissionregistration.x-k8s.io/v1alpha1/admissionregistration.x-k8s.io_client.go.
pub mod Laws
use cel_admission_webhook.Common.{
  ℕ, zero, suc, String, Bool, true, false, not, ◌&&◌, ◌==◌, Option, some, none, if◌then◌else◌,
  is_none,
}
use cel_admission_webhook.Common.Errors.{Error, Result, ok, err, ◌>>=◌, errorf}
use cel_admission_webhook.Clientset.{GroupVersion, scheme_group_version}

-- An `int`: `negsuc n` is -(n + 1).
pub data ℤ : Type 0 where
  pos : ℕ → ℤ
  negsuc : ℕ → ℤ

-- `n <= 0`
abbrev pub not_positive : ℤ → Bool
not_positive (pos zero) = true
not_positive (pos (suc n)) = false
not_positive (negsuc n) = true

-- The fields of `rest.Config` that are read or set here, and the others; a rate limiter is a value of
-- any type.
pub record RestConfig (Limiter Rest : Type 0) : Type 0 where
  pub group_version : Option GroupVersion
  pub api_path : String
  pub without_conversion : Bool
  pub user_agent : String
  pub rate_limiter : Option Limiter
  pub qps : ℤ
  pub burst : ℤ
  pub rest : Rest

-- `rest`, `discovery` and `flowcontrol`. `qps` is in millionths, which says if it is positive.
pub record RestHost (Limiter Rest Http Client Discovery : Type 0) : Type 0 where
  pub default_user_agent : String
  pub http_client_for : RestConfig Limiter Rest → Result Http
  pub rest_client_for : RestConfig Limiter Rest → Http → Result Client
  pub discovery_for : RestConfig Limiter Rest → Http → Result Discovery
  pub token_bucket : ℤ → ℤ → Limiter

-- The Clientset.
pub record Clients (Client Discovery : Type 0) : Type 0 where
  pub v1alpha1 : Client
  pub discovery : Discovery

abbrev pub burst_required : Error
burst_required =
    errorf
      "burst is required to be greater than 0 when RateLimiter is not set and QPS is set to greater than 0"

module _ {Limiter Rest Http Client Discovery : Type 0}
    (host : RestHost Limiter Rest Http Client Discovery) where
  abbrev pub with_user_agent : RestConfig Limiter Rest → RestConfig Limiter Rest
  with_user_agent config =
      if config.user_agent == ""
      then record config { user_agent = host.default_user_agent }
      else config

  -- `setConfigDefaults`
  unfoldable pub set_config_defaults : RestConfig Limiter Rest → Result (RestConfig Limiter Rest)
  set_config_defaults config = ok (
      with_user_agent (record config {
        group_version = some scheme_group_version;
        api_path = "/apis";
        without_conversion = true;
      }))

  -- `NewForConfigAndClient` of the typed client
  unfoldable pub new_client : RestConfig Limiter Rest → Http → Result Client
  unfolding set_config_defaults
  new_client c h = do config ← set_config_defaults c; host.rest_client_for config h

  -- `NewForConfig` of the typed client
  unfoldable pub new_client_for_config : RestConfig Limiter Rest → Result Client
  unfolding set_config_defaults new_client
  new_client_for_config c = do
    config ← set_config_defaults c
    h ← host.http_client_for config
    new_client config h

  -- The rate limiter of `NewForConfigAndClient`.
  unfoldable pub with_limiter : RestConfig Limiter Rest → Result (RestConfig Limiter Rest)
  with_limiter c =
      if is_none c.rate_limiter && not (not_positive c.qps)
      then (if not_positive c.burst
          then err burst_required
          else ok (record c { rate_limiter = some (host.token_bucket c.qps c.burst) }))
      else ok c

  -- `NewForConfigAndClient`
  unfoldable pub new_for_config_and_client :
      RestConfig Limiter Rest → Http → Result (Clients Client Discovery)
  unfolding with_limiter new_client
  new_for_config_and_client c h = do
    config ← with_limiter c
    client ← new_client config h
    discovery ← host.discovery_for config h
    ok (record { v1alpha1 = client; discovery = discovery })

  -- `NewForConfig`
  unfoldable pub new_for_config : RestConfig Limiter Rest → Result (Clients Client Discovery)
  unfolding new_for_config_and_client
  new_for_config c = do
    h ← host.http_client_for (with_user_agent c)
    new_for_config_and_client (with_user_agent c) h
