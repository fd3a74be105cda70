-- ===== src/Settings.antt =====
-- src/relay/infra/settings.py: the settings that the modelled code reads, with their defaults.
-- Times are in microseconds; a rate is in millionths of a token for a microsecond.
use relay_webhooks.Prelude.{ℕ, ◌*◌, List, [], ◌∷◌}

pub record Settings : Type 0 where
  pub outbox_claim_batch_size : ℕ
  pub reaper_min_idle_ms : ℕ
  pub signature_tolerance_seconds : ℕ
  pub breaker_failure_threshold : ℕ
  pub breaker_cooldown : ℕ
  pub ssrf_allowed_ports : List ℕ
  pub delivery_max_attempts : ℕ
  pub rate_limit_rate : ℕ
  pub rate_limit_burst : ℕ
  pub event_payload_max_bytes : ℕ
  pub sandbox_ttl : ℕ
  pub sandbox_max_endpoints : ℕ
  pub sandbox_max_events : ℕ
  pub sandbox_rate_limit_rate : ℕ
  pub sandbox_rate_limit_burst : ℕ
  -- one token in so many seconds: the reciprocal of the setting
  pub sandbox_creation_seconds_per_token : ℕ
  pub sandbox_creation_rate_limit_burst : ℕ
  pub dispatcher_concurrency : ℕ
  pub dispatcher_per_endpoint_concurrency : ℕ

abbrev pub default_settings : Settings
default_settings = record {
  outbox_claim_batch_size = 50;
  reaper_min_idle_ms = 30_000;
  signature_tolerance_seconds = 300;
  breaker_failure_threshold = 5;
  breaker_cooldown = 60 * 1_000_000;
  ssrf_allowed_ports = 80 ∷ 443 ∷ [];
  delivery_max_attempts = 8;
  rate_limit_rate = 5;
  rate_limit_burst = 20;
  event_payload_max_bytes = 65_536;
  sandbox_ttl = 60 * 60 * 1_000_000;
  sandbox_max_endpoints = 3;
  sandbox_max_events = 20;
  sandbox_rate_limit_rate = 1;
  sandbox_rate_limit_burst = 3;
  sandbox_creation_seconds_per_token = 20;
  sandbox_creation_rate_limit_burst = 3;
  dispatcher_concurrency = 10;
  dispatcher_per_endpoint_concurrency = 3;
}
