-- ===== src/Clientset/Config/Laws.antt =====
-- When the clients are made, and with which configuration.
use cel_admission_webhook.Common.{
  ◌≡◌, refl, Bool, true, false, not, ◌&&◌, ◌==◌, some, if◌then◌else◌, is_none, arith, Bool-cases,
  inl, inr,
}
use cel_admission_webhook.Common.Errors.{ok, err, ◌>>=◌, Result-cases}
use cel_admission_webhook.Clientset.{scheme_group_version}
use cel_admission_webhook.Clientset.Config.{
  not_positive, RestConfig, RestHost, with_user_agent, set_config_defaults, new_client,
  burst_required, with_limiter, new_for_config_and_client, new_for_config,
}

module _ {Limiter Rest Http Client Discovery : Type 0}
    (host : RestHost Limiter Rest Http Client Discovery) where
  abbrev pub needs_limiter : RestConfig Limiter Rest → Bool
  needs_limiter c = is_none c.rate_limiter && not (not_positive c.qps)

  -- The configuration of both clients.
  abbrev pub shared : RestConfig Limiter Rest → RestConfig Limiter Rest
  shared c = record c {
    user_agent = if c.user_agent == "" then host.default_user_agent else c.user_agent;
    rate_limiter =
        if needs_limiter c then some (host.token_bucket c.qps c.burst) else c.rate_limiter;
  }

  -- The configuration of the typed client.
  abbrev pub typed : RestConfig Limiter Rest → RestConfig Limiter Rest
  typed c = record (shared c) {
    group_version = some scheme_group_version;
    api_path = "/apis";
    without_conversion = true;
  }

  with_limiter_lem :
      (c : RestConfig Limiter Rest)
      → with_limiter host (with_user_agent host c)
        ≡ (if needs_limiter c && not_positive c.burst then err burst_required else ok (shared c))
  unfolding with_limiter
  with_limiter_lem c = ground (arith)

  new_client_lem :
      (c : RestConfig Limiter Rest) (h : Http)
      → (host.default_user_agent == "") ≡ false
      → new_client host (shared c) h ≡ host.rest_client_for (typed c) h
  unfolding new_client set_config_defaults
  new_client_lem c h named = ground (arith, named)

  -- Making the clients is four steps, when the default user agent is not empty: the HTTP client, then the
  -- test of the burst, the typed client and the discovery client, each with its own configuration; the
  -- first step that fails is the error.
  pub new_for_config-steps :
      (c : RestConfig Limiter Rest)
      → (host.default_user_agent == "") ≡ false
      → new_for_config host c ≡ (do
        h ← host.http_client_for (with_user_agent host c)
        if needs_limiter c && not_positive c.burst then err burst_required else (do
          client ← host.rest_client_for (typed c) h
          discovery ← host.discovery_for (shared c) h
          ok (record { v1alpha1 = client; discovery = discovery })))
  unfolding new_for_config new_for_config_and_client
  new_for_config-steps c named =
      elim (Result-cases (host.http_client_for (with_user_agent host c))) [
        | inr (e, failed) ↦ simp failed refl
        | inl (h, made) ↦
            simp (made, with_limiter_lem c)
              (elim (Bool-cases (needs_limiter c && not_positive c.burst)) [
                | inl refused ↦ simp refused refl
                | inr allowed ↦ simp (allowed, new_client_lem c h named) refl
              ])
      ]
