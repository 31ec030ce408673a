-- ===== src/Config/Load.antt =====
-- `New`, the search for an env file, `Validate`, and what the other parts take from a configuration.
use asset_repayment_service.Prelude.{
  ◌+◌, Bool, not, ◌&&◌, ◌||◌, Option, none, some, List, [], ◌∷◌, ◌++◌, if◌then◌else◌,
}
use asset_repayment_service.Prelude.Int.{ℤ, pos, negsuc, ltb_ℤ, leb_ℤ, pos_part}
use asset_repayment_service.Prelude.Text.{Str, text, str_eq, is_empty, decimal}
use asset_repayment_service.Errors.{GoError, plain, wrapped, Result, ok, err}
use asset_repayment_service.Money.Decimal.{Decimal}
use asset_repayment_service.Money.Currency.{Unicode}
use asset_repayment_service.Money.Parse.{amount, refused, parse_positive, money_message}
use asset_repayment_service.Deployment.Service.{Defaults}
use asset_repayment_service.Payment.Service.{Settings}
use asset_repayment_service.Queue.Worker.{QueueSettings}
use asset_repayment_service.Http.Routes.{HttpSettings}
use asset_repayment_service.Config.Numbers.{Fractions}
use asset_repayment_service.Config.Reader.{Variables, Reader, new_reader, str, problems}
use asset_repayment_service.Config.Sections.{Sections, Config, Zones, read_sections}

-- A directory by its names, the innermost first; the root has none.
abbrev pub Directory : Type 0
Directory = List Str

-- What the process finds on its host. `dotenv` is `godotenv.Load` of a file: the variables after it,
-- and its error.
pub record Host : Type 0 where
  pub working_directory : Option Directory
  pub has_file : Directory → Str → Bool
  pub dotenv : Directory → Str → Variables → Variables × Option GoError

abbrev env_files : List Str
env_files = text ".env" ∷ text ".env.example" ∷ []

module _ (host : Host) where
  unfoldable pub first_file : Directory → List Str → Option Str
  first_file dir [] = none
  first_file dir (name ∷ names) = if host.has_file dir name then some name else first_file dir names

  -- The loop of `loadEnvFile`, from a directory up to the root.
  unfoldable pub find_env_file : Directory → Option (Directory × Str)
  unfolding first_file
  find_env_file [] = elim (first_file [] env_files) [ none ↦ none | some name ↦ some ([], name) ]
  find_env_file (d ∷ dir) =
      let parent = find_env_file dir in
      elim (first_file (d ∷ dir) env_files) [ none ↦ parent | some name ↦ some ((d ∷ dir), name) ]

  load_found : Option (Directory × Str) → Variables → Variables × Option GoError
  load_found none env = (env, none)
  load_found (some (dir, name)) env = host.dotenv dir name env

  load_from : Option Directory → Variables → Variables × Option GoError
  unfolding load_found find_env_file
  load_from none env = (env, some (plain (text "getwd")))
  load_from (some dir) env = load_found (find_env_file dir) env

  -- `loadEnvFile`: the variables after it, and its error.
  unfoldable pub load_env_file : Variables → Variables × Option GoError
  unfolding load_from
  load_env_file env = load_from host.working_directory env

abbrev pub redis_enabled : Sections → Bool
redis_enabled c = not (is_empty c.redis.address)

abbrev pub queue_enabled : Sections → Bool
queue_enabled c = c.queue.enabled && redis_enabled c

abbrev pub signature_verification_enabled : Sections → Bool
signature_verification_enabled c = not (is_empty c.payments.webhook_secret)

unfoldable pub is_production : Sections → Bool
unfolding str_eq
is_production c = str_eq c.app.env (text "production")

abbrev pub decimal_ℤ : ℤ → Str
decimal_ℤ (pos n) = decimal n
decimal_ℤ (negsuc n) = b'-' ∷ decimal (n + 1)

-- `%q` of a text that needs no escapes.
abbrev quoted : Str → Str
quoted s = b'"' ∷ (s ++ b'"' ∷ [])

-- `Validate`; `none` is a nil error.
unfoldable pub validate_config : Sections → Option GoError
unfolding is_production
validate_config c =
    if ltb_ℤ c.http.port (pos 0) || ltb_ℤ (pos 65535) c.http.port
    then some (plain (text "HTTP_PORT must be between 0 and 65535, got " ++ decimal_ℤ c.http.port))
    else if leb_ℤ c.database.max_open_conns (pos 0)
    then some (plain (text "DATABASE_MAX_OPEN_CONNS must be positive"))
    else if leb_ℤ c.http.max_inflight_payments (pos 0)
    then some (plain (text "HTTP_MAX_INFLIGHT_PAYMENTS must be positive"))
    else if leb_ℤ c.payments.default_term_weeks (pos 0)
    then some (plain (text "PAYMENT_DEFAULT_TERM_WEEKS must be positive"))
    else if queue_enabled c && leb_ℤ c.queue.workers (pos 0)
    then some (plain (text "QUEUE_WORKERS must be positive"))
    else if queue_enabled c && leb_ℤ c.queue.batch_size (pos 0)
    then some (plain (text "QUEUE_BATCH_SIZE must be positive"))
    else if is_production c && not (signature_verification_enabled c)
    then some (plain (text "PAYMENT_WEBHOOK_SECRET must be set in production"))
    else none

module _ {A : Type 0} ⦃d : Decimal A⦄ ⦃u : Unicode⦄ ⦃f : Fractions⦄ ⦃z : Zones⦄ where
  unfoldable pub validated : Config A → Result (Config A)
  unfolding validate_config
  validated c = elim (validate_config c.read) [ some problem ↦ err problem | none ↦ ok c ]

  unfoldable pub located : Sections → A → Result (Config A)
  unfolding validated
  located c principal = elim (z.load_location c.payments.provider_timezone) [
    | none ↦ err (
        wrapped (text "invalid PAYMENT_PROVIDER_TIMEZONE " ++ quoted c.payments.provider_timezone)
          (plain (text "unknown time zone")))
    | some location ↦
        validated (record { read = c; default_principal = principal; provider_location = location })
  ]

  -- The principal, whose variable is read only now; a blank one is an amount that does not parse.
  unfoldable pub finish_config : Variables → Sections → Reader → Result (Config A)
  unfolding parse_positive str located
  finish_config env c r =
      elim (parse_positive (str (text "PAYMENT_DEFAULT_PRINCIPAL") env r).0 c.payments.currency) [
        | refused cause ↦
            err (wrapped (text "invalid PAYMENT_DEFAULT_PRINCIPAL") (plain (money_message cause)))
        | amount principal ↦ located c principal
      ]

  -- `New`, once the env file has been looked for.
  unfoldable pub read_config : Variables → Result (Config A)
  unfolding read_sections problems finish_config
  read_config env =
      let (c, r) = read_sections env new_reader in
      elim (problems r) [ some cause ↦ err cause | none ↦ finish_config env c r ]

  -- `New`; an env file that cannot be read is only logged.
  unfoldable pub load_config : Host → Variables → Result (Config A)
  unfolding load_env_file read_config
  load_config host env = read_config (load_env_file host env).0

module _ {A : Type 0} where
  -- `NewPaymentSettings` and `NewDeploymentDefaults`.
  abbrev pub payment_settings : Config A → Settings
  payment_settings c = record {
    provider_location = some c.provider_location;
    default_currency = c.read.payments.currency;
  }

  abbrev pub deployment_defaults : Config A → Defaults A
  deployment_defaults c = record {
    currency = c.read.payments.currency;
    principal = c.default_principal;
    term_weeks = c.read.payments.default_term_weeks;
  }

  -- What the middleware and the workers read of it. A negative limit of a body is 0 to `net/http`; a
  -- negative number of attempts is passed at once, as 0 is.
  abbrev pub http_settings : Config A → HttpSettings
  http_settings c = record {
    max_body_bytes = pos_part c.read.http.max_body_bytes;
    max_inflight_payments = pos_part c.read.http.max_inflight_payments;
    webhook_secret = c.read.payments.webhook_secret;
  }

  abbrev pub queue_settings : Config A → QueueSettings
  queue_settings c = record {
    batch_size = pos_part c.read.queue.batch_size;
    max_attempts = pos_part c.read.queue.max_attempts;
  }
