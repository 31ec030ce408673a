-- ===== src/Config/Report.antt =====
-- The reader's problems are those of the table, in its order.
use asset_repayment_service.Prelude.{◌≡◌, refl, List, [], ◌∷◌, ◌++◌, arith, ap, ◌∙◌, sym}
use mathlib.Core.List.{append-nil, append_assoc}
use asset_repayment_service.Prelude.Text.{Str, text}
use asset_repayment_service.Money.Currency.{Unicode}
use asset_repayment_service.Config.Numbers.{Fractions}
use asset_repayment_service.Config.Reader.{
  Variables, Reader, str, optional, parsed, int, bool, duration,
}
use asset_repayment_service.Config.Sections.{
  read_app, read_http, read_database, read_redis, read_queue, read_payments,
}
use asset_repayment_service.Config.Needs.{
  Need, present, nonblank, number, flag, span, all_missing, all_invalid, app_needs, http_needs,
  database_needs, redis_needs, queue_needs, payments_needs,
}

all_missing-append :
    (env : Variables) (ns ms : List Need)
    → all_missing env (ns ++ ms) ≡ all_missing env ns ++ all_missing env ms
unfolding all_missing
all_missing-append env [] ms = refl
all_missing-append env (n ∷ ns) ms = simp (all_missing-append env ns ms, append_assoc)

all_invalid-append :
    ⦃f : Fractions⦄ (env : Variables) (ns ms : List Need)
    → all_invalid env (ns ++ ms) ≡ all_invalid env ns ++ all_invalid env ms
unfolding all_invalid
all_invalid-append env [] ms = refl
all_invalid-append env (n ∷ ns) ms = simp (all_invalid-append env ns ms, append_assoc)

-- The problems after a read are those before it with what its needs find, and nothing else.
pub record Reports ⦃f : Fractions⦄ (env : Variables) (r r' : Reader) (ns : List Need) : Type 0 where
  pub missing_reports : r'.missing ≡ r.missing ++ all_missing env ns
  pub invalid_reports : r'.invalid ≡ r.invalid ++ all_invalid env ns

module _ ⦃f : Fractions⦄ (env : Variables) where
  nothing-Reports : {r : Reader} → Reports env r r []
  unfolding all_missing all_invalid
  nothing-Reports {r} = record {
    missing_reports = sym (append-nil r.missing);
    invalid_reports = sym (append-nil r.invalid);
  }

  pub then-Reports :
      {a b c : Reader} {ns ms : List Need}
      → Reports env a b ns
      → Reports env b c ms
      → Reports env a c (ns ++ ms)
  then-Reports {a} {ns = ns} {ms = ms} first rest = record {
    missing_reports =
        rest.missing_reports
        ∙ ap (λ xs. xs ++ all_missing env ms) first.missing_reports
        ∙ append_assoc a.missing _ _
        ∙ ap (λ xs. a.missing ++ xs) (sym (all_missing-append env ns ms));
    invalid_reports =
        rest.invalid_reports
        ∙ ap (λ xs. xs ++ all_invalid env ms) first.invalid_reports
        ∙ append_assoc a.invalid _ _
        ∙ ap (λ xs. a.invalid ++ xs) (sym (all_invalid-append env ns ms));
  }

  optional-Reports :
      (key : Str) (r : Reader) → Reports env r (optional key env r).1 (present key ∷ [])
  unfolding optional all_missing all_invalid
  optional-Reports key r = ground (arith, append-nil r.missing, append-nil r.invalid)

  str-Reports : (key : Str) (r : Reader) → Reports env r (str key env r).1 (nonblank key ∷ [])
  unfolding str all_missing all_invalid
  str-Reports key r = ground (arith, append-nil r.missing, append-nil r.invalid)

  int-Reports : (key : Str) (r : Reader) → Reports env r (int key env r).1 (number key ∷ [])
  unfolding parsed all_missing all_invalid
  int-Reports key r = ground (arith, append-nil r.missing, append-nil r.invalid)

  pub bool-Reports : (key : Str) (r : Reader) → Reports env r (bool key env r).1 (flag key ∷ [])
  unfolding parsed all_missing all_invalid
  bool-Reports key r = ground (arith, append-nil r.missing, append-nil r.invalid)

  duration-Reports : (key : Str) (r : Reader) → Reports env r (duration key env r).1 (span key ∷ [])
  unfolding parsed all_missing all_invalid
  duration-Reports key r = ground (arith, append-nil r.missing, append-nil r.invalid)

  pub app-Reports : (r : Reader) → Reports env r (read_app env r).1 app_needs
  unfolding read_app
  app-Reports r =
      then-Reports (str-Reports (text "APP_NAME") _)
        (then-Reports (str-Reports (text "APP_ENV") _) nothing-Reports)

  pub http-Reports : (r : Reader) → Reports env r (read_http env r).1 http_needs
  unfolding read_http
  http-Reports r = then-Reports (int-Reports (text "HTTP_PORT") _) (
      then-Reports (duration-Reports (text "HTTP_READ_TIMEOUT") _) (
        then-Reports (duration-Reports (text "HTTP_WRITE_TIMEOUT") _) (
          then-Reports (duration-Reports (text "HTTP_IDLE_TIMEOUT") _) (
            then-Reports (duration-Reports (text "HTTP_SHUTDOWN_TIMEOUT") _) (
              then-Reports (int-Reports (text "HTTP_MAX_BODY_BYTES") _) (
                then-Reports (int-Reports (text "HTTP_MAX_INFLIGHT_PAYMENTS") _) (
                  then-Reports (duration-Reports (text "HTTP_REQUEST_TIMEOUT") _)
                    nothing-Reports)))))))

  pub database-Reports : (r : Reader) → Reports env r (read_database env r).1 database_needs
  unfolding read_database
  database-Reports r = then-Reports (str-Reports (text "DATABASE_URL") _) (
      then-Reports (int-Reports (text "DATABASE_MAX_OPEN_CONNS") _) (
        then-Reports (int-Reports (text "DATABASE_MAX_IDLE_CONNS") _) (
          then-Reports (duration-Reports (text "DATABASE_CONN_MAX_LIFETIME") _) (
            then-Reports (duration-Reports (text "DATABASE_CONN_MAX_IDLE_TIME") _)
              (then-Reports (bool-Reports (text "DATABASE_AUTO_MIGRATE") _) nothing-Reports)))))

  pub redis-Reports : (r : Reader) → Reports env r (read_redis env r).1 redis_needs
  unfolding read_redis
  redis-Reports r = then-Reports (optional-Reports (text "REDIS_ADDRESS") _) (
      then-Reports (optional-Reports (text "REDIS_PASSWORD") _) (
        then-Reports (int-Reports (text "REDIS_DB") _) (
          then-Reports (int-Reports (text "REDIS_POOL_SIZE") _) (
            then-Reports (duration-Reports (text "REDIS_TIMEOUT") _) (
              then-Reports (duration-Reports (text "REDIS_REF_TTL") _)
                (then-Reports (duration-Reports (text "REDIS_RESULT_TTL") _) nothing-Reports))))))

  pub queue-Reports : (r : Reader) → Reports env r (read_queue env r).1 queue_needs
  unfolding read_queue
  queue-Reports r = then-Reports (bool-Reports (text "QUEUE_ENABLED") _) (
      then-Reports (str-Reports (text "QUEUE_STREAM") _) (
        then-Reports (str-Reports (text "QUEUE_GROUP") _) (
          then-Reports (int-Reports (text "QUEUE_WORKERS") _) (
            then-Reports (int-Reports (text "QUEUE_BATCH_SIZE") _) (
              then-Reports (duration-Reports (text "QUEUE_BLOCK_TIMEOUT") _) (
                then-Reports (duration-Reports (text "QUEUE_PROCESS_TIMEOUT") _) (
                  then-Reports (duration-Reports (text "QUEUE_TIMEOUT") _) (
                    then-Reports (duration-Reports (text "QUEUE_CLAIM_MIN_IDLE") _) (
                      then-Reports (duration-Reports (text "QUEUE_CLAIM_INTERVAL") _) (
                        then-Reports (int-Reports (text "QUEUE_MAX_ATTEMPTS") _) (
                          then-Reports (int-Reports (text "QUEUE_MAX_LEN") _)
                            nothing-Reports)))))))))))

  pub payments-Reports :
      ⦃u : Unicode⦄ → (r : Reader) → Reports env r (read_payments env r).1 payments_needs
  unfolding read_payments
  payments-Reports r = then-Reports (optional-Reports (text "PAYMENT_WEBHOOK_SECRET") _) (
      then-Reports (str-Reports (text "PAYMENT_SIGNATURE_HEADER") _) (
        then-Reports (str-Reports (text "PAYMENT_CURRENCY") _) (
          then-Reports (int-Reports (text "PAYMENT_DEFAULT_TERM_WEEKS") _)
            (then-Reports (str-Reports (text "PAYMENT_PROVIDER_TIMEZONE") _) nothing-Reports))))
