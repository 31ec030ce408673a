-- ===== src/Config/Sections.antt =====
-- `Config` and the part of `New` that reads its sections, in the order of the source.
use asset_repayment_service.Prelude.{Bool, Option}
use asset_repayment_service.Prelude.Int.{ℤ}
use asset_repayment_service.Prelude.Text.{Str, text}
use asset_repayment_service.Money.Currency.{Currency, Unicode, lookup}
use asset_repayment_service.Payment.Validate.{Location}
use asset_repayment_service.Config.Numbers.{Fractions}
use asset_repayment_service.Config.Reader.{Reads, ◌>>=◌, return, str, optional, int, bool, duration}

pub record AppConfig : Type 0 where
  pub name : Str
  pub env : Str

-- Durations are in nanoseconds.
pub record HttpConfig : Type 0 where
  pub port : ℤ
  pub read_timeout : ℤ
  pub write_timeout : ℤ
  pub idle_timeout : ℤ
  pub shutdown_timeout : ℤ
  pub max_body_bytes : ℤ
  pub max_inflight_payments : ℤ
  pub request_timeout : ℤ

pub record DatabaseConfig : Type 0 where
  pub url : Str
  pub max_open_conns : ℤ
  pub max_idle_conns : ℤ
  pub conn_max_lifetime : ℤ
  pub conn_max_idle_time : ℤ
  pub auto_migrate : Bool

pub record RedisConfig : Type 0 where
  pub address : Str
  pub password : Str
  pub db : ℤ
  pub pool_size : ℤ
  pub timeout : ℤ
  pub ref_ttl : ℤ
  pub result_ttl : ℤ

pub record QueueConfig : Type 0 where
  pub enabled : Bool
  pub stream : Str
  pub group : Str
  pub workers : ℤ
  pub batch_size : ℤ
  pub block_timeout : ℤ
  pub process_timeout : ℤ
  pub timeout : ℤ
  pub claim_min_idle : ℤ
  pub claim_interval : ℤ
  pub max_attempts : ℤ
  pub max_len : ℤ

-- The settings of payments that the reader has read, before the principal and the zone.
pub record PaymentsRead : Type 0 where
  pub webhook_secret : Str
  pub signature_header : Str
  pub currency : Currency
  pub default_term_weeks : ℤ
  pub provider_timezone : Str

pub record Sections : Type 0 where
  pub app : AppConfig
  pub http : HttpConfig
  pub database : DatabaseConfig
  pub redis : RedisConfig
  pub queue : QueueConfig
  pub payments : PaymentsRead
  pub metrics_enabled : Bool

pub record Config (A : Type 0) : Type 0 where
  pub read : Sections
  pub default_principal : A
  pub provider_location : Location

-- `time.LoadLocation`
pub record Zones : Type 0 where
  pub load_location : Str → Option Location

unfoldable pub read_app : Reads AppConfig
unfolding str
read_app = do
  name ← str (text "APP_NAME")
  env ← str (text "APP_ENV")
  return (record { name = name; env = env })

module _ ⦃f : Fractions⦄ where
  unfoldable pub read_http : Reads HttpConfig
  read_http = do
    port ← int (text "HTTP_PORT")
    read_timeout ← duration (text "HTTP_READ_TIMEOUT")
    write_timeout ← duration (text "HTTP_WRITE_TIMEOUT")
    idle_timeout ← duration (text "HTTP_IDLE_TIMEOUT")
    shutdown_timeout ← duration (text "HTTP_SHUTDOWN_TIMEOUT")
    max_body_bytes ← int (text "HTTP_MAX_BODY_BYTES")
    max_inflight_payments ← int (text "HTTP_MAX_INFLIGHT_PAYMENTS")
    request_timeout ← duration (text "HTTP_REQUEST_TIMEOUT")
    return (record {
      port = port;
      read_timeout = read_timeout;
      write_timeout = write_timeout;
      idle_timeout = idle_timeout;
      shutdown_timeout = shutdown_timeout;
      max_body_bytes = max_body_bytes;
      max_inflight_payments = max_inflight_payments;
      request_timeout = request_timeout;
    })

  unfoldable pub read_database : Reads DatabaseConfig
  read_database = do
    url ← str (text "DATABASE_URL")
    max_open_conns ← int (text "DATABASE_MAX_OPEN_CONNS")
    max_idle_conns ← int (text "DATABASE_MAX_IDLE_CONNS")
    conn_max_lifetime ← duration (text "DATABASE_CONN_MAX_LIFETIME")
    conn_max_idle_time ← duration (text "DATABASE_CONN_MAX_IDLE_TIME")
    auto_migrate ← bool (text "DATABASE_AUTO_MIGRATE")
    return (record {
      url = url;
      max_open_conns = max_open_conns;
      max_idle_conns = max_idle_conns;
      conn_max_lifetime = conn_max_lifetime;
      conn_max_idle_time = conn_max_idle_time;
      auto_migrate = auto_migrate;
    })

  unfoldable pub read_redis : Reads RedisConfig
  read_redis = do
    address ← optional (text "REDIS_ADDRESS")
    password ← optional (text "REDIS_PASSWORD")
    db ← int (text "REDIS_DB")
    pool_size ← int (text "REDIS_POOL_SIZE")
    timeout ← duration (text "REDIS_TIMEOUT")
    ref_ttl ← duration (text "REDIS_REF_TTL")
    result_ttl ← duration (text "REDIS_RESULT_TTL")
    return (record {
      address = address;
      password = password;
      db = db;
      pool_size = pool_size;
      timeout = timeout;
      ref_ttl = ref_ttl;
      result_ttl = result_ttl;
    })

  unfoldable pub read_queue : Reads QueueConfig
  read_queue = do
    enabled ← bool (text "QUEUE_ENABLED")
    stream ← str (text "QUEUE_STREAM")
    group ← str (text "QUEUE_GROUP")
    workers ← int (text "QUEUE_WORKERS")
    batch_size ← int (text "QUEUE_BATCH_SIZE")
    block_timeout ← duration (text "QUEUE_BLOCK_TIMEOUT")
    process_timeout ← duration (text "QUEUE_PROCESS_TIMEOUT")
    timeout ← duration (text "QUEUE_TIMEOUT")
    claim_min_idle ← duration (text "QUEUE_CLAIM_MIN_IDLE")
    claim_interval ← duration (text "QUEUE_CLAIM_INTERVAL")
    max_attempts ← int (text "QUEUE_MAX_ATTEMPTS")
    max_len ← int (text "QUEUE_MAX_LEN")
    return (record {
      enabled = enabled;
      stream = stream;
      group = group;
      workers = workers;
      batch_size = batch_size;
      block_timeout = block_timeout;
      process_timeout = process_timeout;
      timeout = timeout;
      claim_min_idle = claim_min_idle;
      claim_interval = claim_interval;
      max_attempts = max_attempts;
      max_len = max_len;
    })

unfoldable pub read_payments : ⦃u : Unicode⦄ → Reads PaymentsRead
unfolding lookup
read_payments = do
  webhook_secret ← optional (text "PAYMENT_WEBHOOK_SECRET")
  signature_header ← str (text "PAYMENT_SIGNATURE_HEADER")
  code ← str (text "PAYMENT_CURRENCY")
  default_term_weeks ← int (text "PAYMENT_DEFAULT_TERM_WEEKS")
  provider_timezone ← str (text "PAYMENT_PROVIDER_TIMEZONE")
  return (record {
    webhook_secret = webhook_secret;
    signature_header = signature_header;
    currency = lookup code;
    default_term_weeks = default_term_weeks;
    provider_timezone = provider_timezone;
  })

module _ ⦃u : Unicode⦄ ⦃f : Fractions⦄ where
  unfoldable pub read_sections : Reads Sections
  unfolding read_app read_http read_database read_redis read_queue read_payments
  read_sections = do
    app ← read_app
    http ← read_http
    database ← read_database
    redis ← read_redis
    queue ← read_queue
    payments ← read_payments
    metrics_enabled ← bool (text "METRICS_ENABLED")
    return (record {
      app = app;
      http = http;
      database = database;
      redis = redis;
      queue = queue;
      payments = payments;
      metrics_enabled = metrics_enabled;
    })
