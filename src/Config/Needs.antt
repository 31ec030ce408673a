-- ===== src/Config/Needs.antt =====
-- What the reader reports, against the table of the settings that the service needs.
use asset_repayment_service.Prelude.{
  Bool, true, false, none, some, List, [], ◌∷◌, ◌++◌, if◌then◌else◌,
}
use asset_repayment_service.Prelude.Text.{Str, text, trim_space, is_empty}
use asset_repayment_service.Config.Numbers.{Read, Fractions, atoi, parse_bool, parse_duration}
use asset_repayment_service.Config.Reader.{Variables, want_number, want_flag, want_span}

-- What a variable has to be: there, not blank, or not blank and of a form.
pub data Need : Type 0 where
  present nonblank number flag span : Str → Need

-- A variable, trimmed; an absent one is blank.
unfoldable pub value_of : Variables → Str → Str
value_of env key = elim (env key) [ none ↦ [] | some value ↦ trim_space value ]

unfoldable pub is_absent : Variables → Str → Bool
is_absent env key = elim (env key) [ none ↦ true | some value ↦ false ]

abbrev one_if : Bool → Str → List Str
one_if true x = x ∷ []
one_if false x = []

-- A value that is not blank and not understood.
unfoldable pub is_misread : {X : Type 0} → (Str → Read X) → Str → Bool
is_misread parse s = if is_empty s then false else if (parse s).is_valid then false else true

-- The names of the variables that a need finds missing.
unfoldable pub missing_of : Variables → Need → List Str
unfolding value_of is_absent
missing_of env (present key) = one_if (is_absent env key) key
missing_of env (nonblank key) = one_if (is_empty (value_of env key)) key
missing_of env (number key) = one_if (is_empty (value_of env key)) key
missing_of env (flag key) = one_if (is_empty (value_of env key)) key
missing_of env (span key) = one_if (is_empty (value_of env key)) key

unfoldable pub all_missing : Variables → List Need → List Str
unfolding missing_of
all_missing env [] = []
all_missing env (n ∷ ns) = missing_of env n ++ all_missing env ns

module _ ⦃f : Fractions⦄ where
  -- The complaint about a value that is not of its form.
  unfoldable pub invalid_of : Variables → Need → List Str
  unfolding value_of is_misread
  invalid_of env (present key) = []
  invalid_of env (nonblank key) = []
  invalid_of env (number key) = one_if (is_misread atoi (value_of env key)) (key ++ want_number)
  invalid_of env (flag key) = one_if (is_misread parse_bool (value_of env key)) (key ++ want_flag)
  invalid_of env (span key) =
      one_if (is_misread (parse_duration ⦃f = f⦄) (value_of env key)) (key ++ want_span)

  unfoldable pub all_invalid : Variables → List Need → List Str
  unfolding invalid_of
  all_invalid env [] = []
  all_invalid env (n ∷ ns) = invalid_of env n ++ all_invalid env ns

abbrev pub app_needs : List Need
app_needs = nonblank (text "APP_NAME") ∷ nonblank (text "APP_ENV") ∷ []

abbrev pub http_needs : List Need
http_needs =
    number (text "HTTP_PORT")
    ∷ span (text "HTTP_READ_TIMEOUT")
    ∷ span (text "HTTP_WRITE_TIMEOUT")
    ∷ span (text "HTTP_IDLE_TIMEOUT")
    ∷ span (text "HTTP_SHUTDOWN_TIMEOUT")
    ∷ number (text "HTTP_MAX_BODY_BYTES")
    ∷ number (text "HTTP_MAX_INFLIGHT_PAYMENTS")
    ∷ span (text "HTTP_REQUEST_TIMEOUT")
    ∷ []

abbrev pub database_needs : List Need
database_needs =
    nonblank (text "DATABASE_URL")
    ∷ number (text "DATABASE_MAX_OPEN_CONNS")
    ∷ number (text "DATABASE_MAX_IDLE_CONNS")
    ∷ span (text "DATABASE_CONN_MAX_LIFETIME")
    ∷ span (text "DATABASE_CONN_MAX_IDLE_TIME")
    ∷ flag (text "DATABASE_AUTO_MIGRATE")
    ∷ []

abbrev pub redis_needs : List Need
redis_needs =
    present (text "REDIS_ADDRESS")
    ∷ present (text "REDIS_PASSWORD")
    ∷ number (text "REDIS_DB")
    ∷ number (text "REDIS_POOL_SIZE")
    ∷ span (text "REDIS_TIMEOUT")
    ∷ span (text "REDIS_REF_TTL")
    ∷ span (text "REDIS_RESULT_TTL")
    ∷ []

abbrev pub queue_needs : List Need
queue_needs =
    flag (text "QUEUE_ENABLED")
    ∷ nonblank (text "QUEUE_STREAM")
    ∷ nonblank (text "QUEUE_GROUP")
    ∷ number (text "QUEUE_WORKERS")
    ∷ number (text "QUEUE_BATCH_SIZE")
    ∷ span (text "QUEUE_BLOCK_TIMEOUT")
    ∷ span (text "QUEUE_PROCESS_TIMEOUT")
    ∷ span (text "QUEUE_TIMEOUT")
    ∷ span (text "QUEUE_CLAIM_MIN_IDLE")
    ∷ span (text "QUEUE_CLAIM_INTERVAL")
    ∷ number (text "QUEUE_MAX_ATTEMPTS")
    ∷ number (text "QUEUE_MAX_LEN")
    ∷ []

abbrev pub payments_needs : List Need
payments_needs =
    present (text "PAYMENT_WEBHOOK_SECRET")
    ∷ nonblank (text "PAYMENT_SIGNATURE_HEADER")
    ∷ nonblank (text "PAYMENT_CURRENCY")
    ∷ number (text "PAYMENT_DEFAULT_TERM_WEEKS")
    ∷ nonblank (text "PAYMENT_PROVIDER_TIMEZONE")
    ∷ []

-- The table, in the order of the source.
abbrev pub needs : List Need
needs =
    app_needs
    ++ (http_needs
        ++ (database_needs
            ++ (redis_needs
                ++ (queue_needs ++ (payments_needs ++ (flag (text "METRICS_ENABLED") ∷ []))))))
