-- ===== src/Config/Laws.antt =====
-- What a configuration that `New` has returned is like, and what it reports otherwise.
use asset_repayment_service.Prelude.{
  ◌≡◌, refl, true, false, ◌⊎◌, inl, inr, none, [], arith, Option-cases, List-cases,
}
use asset_repayment_service.Prelude.Int.{pos, ◌≤ℤ◌}
use asset_repayment_service.Prelude.Text.{text, is_empty}
use asset_repayment_service.Errors.{ok}
use asset_repayment_service.Money.Decimal.{Decimal, IsPositive}
use asset_repayment_service.Money.Currency.{Unicode}
use asset_repayment_service.Money.Parse.{MoneyError, Parsed, amount, refused, parse_positive}
use asset_repayment_service.Money.Laws.{parse_positive_accepts}
use asset_repayment_service.Config.Numbers.{Fractions}
use asset_repayment_service.Config.Reader.{Variables, Reader, new_reader, str, problems}
use asset_repayment_service.Config.Sections.{Sections, Config, Zones, read_sections}
use asset_repayment_service.Config.Load.{
  queue_enabled, is_production, validate_config, validated, located, finish_config, read_config,
}
use asset_repayment_service.Config.Needs.{all_missing, all_invalid, needs}
use asset_repayment_service.Config.Report.{
  Reports, then-Reports, app-Reports, http-Reports, database-Reports, redis-Reports, queue-Reports,
  payments-Reports, bool-Reports,
}

Parsed-cases :
    {A : Type 0} (p : Parsed A) → ((a : A) × (p ≡ amount a)) ⊎ ((e : MoneyError) × (p ≡ refused e))
Parsed-cases (amount a) = inl (a, refl)
Parsed-cases (refused e) = inr (e, refl)

module _ ⦃u : Unicode⦄ ⦃f : Fractions⦄ where
  sections-Reports : (env : Variables) (r : Reader) → Reports env r (read_sections env r).1 needs
  unfolding read_sections
  sections-Reports env r = then-Reports env (app-Reports env r) (
      then-Reports env (http-Reports env _) (
        then-Reports env (database-Reports env _) (
          then-Reports env (redis-Reports env _) (
            then-Reports env (queue-Reports env _) (
              then-Reports env (payments-Reports env _)
                (bool-Reports env (text "METRICS_ENABLED") _))))))

  -- Once the sections are read, the reader lists the variables of the table that are absent, or
  -- blank where they must not be, and those whose value is not of its form, each in the order of
  -- the table and nothing else.
  pub read_sections_reports :
      (env : Variables)
      → (read_sections env new_reader).1
        ≡ record { missing = all_missing env needs; invalid = all_invalid env needs }
  read_sections_reports env =
      let r = sections-Reports env new_reader in
      ground (arith, r.missing_reports, r.invalid_reports)

problems-eq-none : (r : Reader) → problems r ≡ none → (r.missing ≡ []) × (r.invalid ≡ [])
unfolding problems
problems-eq-none r h = elim (List-cases r.missing) [
  | inl complete ↦ elim (List-cases r.invalid) [
    | inl valid ↦ (complete, valid)
    | inr (y, (ys, misread)) ↦ ground arith
  ]
  | inr (x, (xs, absent)) ↦ ground arith
]

-- The settings that the rest of the service relies on.
pub record IsUsable {A : Type 0} ⦃d : Decimal A⦄ (c : Config A) : Type 0 where
  pub port_from : pos 0 ≤ℤ c.read.http.port
  pub port_to : c.read.http.port ≤ℤ pos 65535
  pub has_connections : pos 1 ≤ℤ c.read.database.max_open_conns
  pub has_slots : pos 1 ≤ℤ c.read.http.max_inflight_payments
  pub has_term : pos 1 ≤ℤ c.read.payments.default_term_weeks
  pub has_principal : IsPositive c.default_principal
  pub has_workers : queue_enabled c.read ≡ true → pos 1 ≤ℤ c.read.queue.workers
  pub has_batches : queue_enabled c.read ≡ true → pos 1 ≤ℤ c.read.queue.batch_size
  pub is_signed : is_production c.read ≡ true → is_empty c.read.payments.webhook_secret ≡ false

module _ {A : Type 0} ⦃d : Decimal A⦄ ⦃u : Unicode⦄ ⦃f : Fractions⦄ ⦃z : Zones⦄ where
  finish_config-IsUsable :
      (env : Variables) (c : Sections) (r : Reader) (config : Config A)
      → finish_config env c r ≡ ok config
      → IsUsable config × (config.read ≡ c)
  unfolding finish_config located validated validate_config
  finish_config-IsUsable env c r config loaded =
      let raw = (str (text "PAYMENT_DEFAULT_PRINCIPAL") env r).0 in
      elim (Parsed-cases (parse_positive ⦃d = d⦄ raw c.payments.currency)) [
        | inl (principal, accepted) ↦
            let positive = (parse_positive_accepts raw c.payments.currency principal accepted).0 in
            ground arith
        | inr (cause, rejected) ↦ ground arith
      ]

  -- When `New` returns a configuration, every variable of the table was there, not blank where it
  -- must not be, and of its form, and the configuration is usable: the port is between 0 and 65535,
  -- connections, slots and the default term are positive, the default principal is positive, workers
  -- and batches are positive when the queue is on, and in production there is a webhook secret.
  pub read_config-IsUsable :
      (env : Variables) (config : Config A)
      → read_config env ≡ ok config
      → (all_missing env needs ≡ []) × (all_invalid env needs ≡ []) × IsUsable config
  unfolding read_config
  read_config-IsUsable env config loaded =
      let (c, r) = read_sections env new_reader in
      let report = read_sections_reports env in
      elim (Option-cases (problems r)) [
        | inl fine ↦
            let (complete, valid) = problems-eq-none r fine in
            let finished = finish_config-IsUsable env c r config in
            ground (arith, finished, complete, valid, report)
        | inr (cause, told) ↦ ground arith
      ]
