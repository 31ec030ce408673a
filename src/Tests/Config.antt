-- ===== src/Tests/Config.antt =====
-- The configuration of a test deployment, and the texts of numbers and durations.
use asset_repayment_service.Prelude.{
  ◌≡◌, refl, true, false, none, some, List, [], ◌∷◌, arith, if◌then◌else◌,
}
use asset_repayment_service.Prelude.Int.{ℤ, pos, negsuc}
use asset_repayment_service.Prelude.Text.{Str, text, str_eq, trim_space}
use asset_repayment_service.Errors.{ok, code_unauthorized}
use asset_repayment_service.Payment.Validate.{zone}
use asset_repayment_service.Config.Numbers.{Fractions, parse_duration, parse_bool, atoi, good, bad}
use asset_repayment_service.Config.Reader.{Variables, new_reader, int, optional, parsed}
use asset_repayment_service.Config.Sections.{Sections, Config, Zones, read_sections}
use asset_repayment_service.Config.Load.{
  read_config, is_production, http_settings, payment_settings,
}
use asset_repayment_service.Config.Needs.{all_missing, all_invalid, needs}
use asset_repayment_service.Config.Laws.{read_sections_reports, read_config-IsUsable, IsUsable}
use asset_repayment_service.Config.RoundTrip.{int-decimal_ℤ}
use asset_repayment_service.Config.Production.{production_refuses_unsigned}
use asset_repayment_service.Http.Routes.{payments_route}
use asset_repayment_service.Tests.Route.{forged, forged-IsUnsigned, server, one_order, fixed_digest}
use asset_repayment_service.Tests.Samples.{
  whole_units, ascii, naira, works, whole_floats, one_date, one_message,
}

abbrev variable : List (Str × Str) → Variables
variable [] key = none
variable ((k, v) ∷ rest) key = if str_eq k key then some v else variable rest key

instance abbrev fractions : Fractions
fractions = record { share = λ f unit scale. 0 }

instance abbrev zones : Zones
zones = record { load_location = λ name. some (zone name) }

abbrev environment : List (Str × Str)
environment =
    (text "APP_NAME", text "asset-repayment-service")
    ∷ (text "APP_ENV", text "production")
    ∷ (text "HTTP_PORT", text "8080")
    ∷ (text "HTTP_READ_TIMEOUT", text "10s")
    ∷ (text "HTTP_WRITE_TIMEOUT", text "15s")
    ∷ (text "HTTP_IDLE_TIMEOUT", text "90s")
    ∷ (text "HTTP_SHUTDOWN_TIMEOUT", text "20s")
    ∷ (text "HTTP_MAX_BODY_BYTES", text "16384")
    ∷ (text "HTTP_REQUEST_TIMEOUT", text "5s")
    ∷ (text "HTTP_MAX_INFLIGHT_PAYMENTS", text "1024")
    ∷ (text "DATABASE_URL", text "postgres://localhost:5432/asset_repayment?sslmode=disable")
    ∷ (text "DATABASE_MAX_OPEN_CONNS", text "25")
    ∷ (text "DATABASE_MAX_IDLE_CONNS", text "25")
    ∷ (text "DATABASE_CONN_MAX_LIFETIME", text "30m")
    ∷ (text "DATABASE_CONN_MAX_IDLE_TIME", text "5m")
    ∷ (text "DATABASE_AUTO_MIGRATE", text "true")
    ∷ (text "REDIS_ADDRESS", text "")
    ∷ (text "REDIS_PASSWORD", text "")
    ∷ (text "REDIS_DB", text "0")
    ∷ (text "REDIS_POOL_SIZE", text "64")
    ∷ (text "REDIS_TIMEOUT", text "50ms")
    ∷ (text "REDIS_REF_TTL", text "30m")
    ∷ (text "REDIS_RESULT_TTL", text "24h")
    ∷ (text "QUEUE_ENABLED", text "false")
    ∷ (text "QUEUE_STREAM", text "payments:inbound")
    ∷ (text "QUEUE_GROUP", text "payment-workers")
    ∷ (text "QUEUE_WORKERS", text "16")
    ∷ (text "QUEUE_BATCH_SIZE", text "64")
    ∷ (text "QUEUE_BLOCK_TIMEOUT", text "2s")
    ∷ (text "QUEUE_PROCESS_TIMEOUT", text "10s")
    ∷ (text "QUEUE_TIMEOUT", text "2s")
    ∷ (text "QUEUE_CLAIM_MIN_IDLE", text "30s")
    ∷ (text "QUEUE_CLAIM_INTERVAL", text "15s")
    ∷ (text "QUEUE_MAX_ATTEMPTS", text "5")
    ∷ (text "QUEUE_MAX_LEN", text "1000000")
    ∷ (text "PAYMENT_WEBHOOK_SECRET", text " key ")
    ∷ (text "PAYMENT_SIGNATURE_HEADER", text "X-Payment-Signature")
    ∷ (text "PAYMENT_PROVIDER_TIMEZONE", text "Africa/Lagos")
    ∷ (text "PAYMENT_CURRENCY", text "NGN")
    ∷ (text "PAYMENT_DEFAULT_PRINCIPAL", text "1,000")
    ∷ (text "PAYMENT_DEFAULT_TERM_WEEKS", text "50")
    ∷ (text "METRICS_ENABLED", text "true")
    ∷ []

abbrev sections : Sections
sections = record {
  app = record { name = text "asset-repayment-service"; env = text "production" };
  http = record {
    port = pos 8080;
    read_timeout = pos 10000000000;
    write_timeout = pos 15000000000;
    idle_timeout = pos 90000000000;
    shutdown_timeout = pos 20000000000;
    max_body_bytes = pos 16384;
    max_inflight_payments = pos 1024;
    request_timeout = pos 5000000000;
  };
  database = record {
    url = text "postgres://localhost:5432/asset_repayment?sslmode=disable";
    max_open_conns = pos 25;
    max_idle_conns = pos 25;
    conn_max_lifetime = pos 1800000000000;
    conn_max_idle_time = pos 300000000000;
    auto_migrate = true;
  };
  redis = record {
    address = text "";
    password = text "";
    db = pos 0;
    pool_size = pos 64;
    timeout = pos 50000000;
    ref_ttl = pos 1800000000000;
    result_ttl = pos 86400000000000;
  };
  queue = record {
    enabled = false;
    stream = text "payments:inbound";
    group = text "payment-workers";
    workers = pos 16;
    batch_size = pos 64;
    block_timeout = pos 2000000000;
    process_timeout = pos 10000000000;
    timeout = pos 2000000000;
    claim_min_idle = pos 30000000000;
    claim_interval = pos 15000000000;
    max_attempts = pos 5;
    max_len = pos 1000000;
  };
  payments = record {
    webhook_secret = text "key";
    signature_header = text "X-Payment-Signature";
    currency = naira;
    default_term_weeks = pos 50;
    provider_timezone = text "Africa/Lagos";
  };
  metrics_enabled = true;
}

abbrev pub config : Config ℤ
config = record {
  read = sections;
  default_principal = pos 1000;
  provider_location = zone (text "Africa/Lagos");
}

read_config_runs : read_config (variable environment) ≡ ok config
unfolding read_config parsed parse_bool atoi optional parse_duration whole_units
read_config_runs = refl

-- Terms of a duration with their units, and texts that are none.
durations :
    (parse_duration (text "-1h30m") ≡ good (negsuc 5399999999999))
    × (parse_duration (text "250ms") ≡ good (pos 250000000))
    × (parse_duration (text "10") ≡ bad (pos 0))
    × (parse_duration (text "ten seconds") ≡ bad (pos 0))
    × (parse_duration (text "2562048h") ≡ bad (pos 0))
unfolding parse_duration
durations = (refl, refl, refl, refl, refl)

-- The terms are added as `uint64`, and twice 2^63 nanoseconds come back to none.
durations_wrap : parse_duration (text "9223372036854775808ns9223372036854775808ns") ≡ good (pos 0)
unfolding parse_duration
durations_wrap = refl

read_sections_reports_example : (read_sections (variable []) new_reader).1 ≡ record {
  missing = all_missing (variable []) needs;
  invalid = all_invalid (variable []) needs;
}
read_sections_reports_example = read_sections_reports (variable [])

read_config-IsUsable_example :
    (all_missing (variable environment) needs ≡ [])
    × (all_invalid (variable environment) needs ≡ [])
    × IsUsable config
read_config-IsUsable_example = read_config-IsUsable (variable environment) config read_config_runs

port : Variables
port key = some (text " -8080 ")

int-decimal_ℤ_example : int (text "HTTP_PORT") port new_reader ≡ (negsuc 8079, new_reader)
unfolding port trim_space
int-decimal_ℤ_example =
    int-decimal_ℤ port new_reader (text "HTTP_PORT") (text " -8080 ") (negsuc 8079) refl refl
      (omega arith) (omega arith)

production_refuses_unsigned_example :
    ((payments_route (http_settings config) (payment_settings config) forged server).0.code
      ≡ code_unauthorized)
    × ((payments_route (http_settings config) (payment_settings config) forged server).1 ≡ server)
unfolding is_production
production_refuses_unsigned_example =
    production_refuses_unsigned (variable environment) config forged server read_config_runs refl
      (omega arith) forged-IsUnsigned
