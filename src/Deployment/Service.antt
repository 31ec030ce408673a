-- ===== src/Deployment/Service.antt =====
-- service.go: `Create`, `Resolve` and `GetPosition` over the repository and the routing cache.
use asset_repayment_service.Prelude.{ℕ, Bool, not, ◌||◌, ◌==◌, none, some, if◌then◌else◌}
use asset_repayment_service.Prelude.Int.{ℤ, pos, pos_part, neg_part, ltb_ℤ}
use asset_repayment_service.Prelude.Text.{Str, trim_space, is_empty}
use asset_repayment_service.Errors.{Result, ok, err, domain}
use asset_repayment_service.Money.Decimal.{Decimal}
use asset_repayment_service.Money.Currency.{Currency, Unicode}
use asset_repayment_service.Deployment.Clock.{Time, Floats, truncate_day}
use asset_repayment_service.Deployment.Entity.{Deployment, is_open}
use asset_repayment_service.Deployment.Contracts.{CreateInput, Ref, to_ref}
use asset_repayment_service.Deployment.Position.{Position, position_at}
use asset_repayment_service.World.State.{Environment, World}
use asset_repayment_service.World.Cache.{get_ref, set_ref}
use asset_repayment_service.World.Repository.{
  create_deployment, get_by_customer_id, err_invalid_customer_id, err_invalid_principal,
  err_invalid_term, err_no_open_deployment,
}

abbrev pub max_term_weeks : ℕ
max_term_weeks = 520

pub record Defaults (A : Type 0) : Type 0 where
  pub currency : Currency
  pub principal : A
  pub term_weeks : ℤ

abbrev is_zero_int : ℤ → Bool
is_zero_int n = pos_part n == neg_part n

module _ {A : Type 0} ⦃d : Decimal A⦄ where
  -- The input with the defaults of the programme filled in.
  unfoldable pub fill_defaults : Defaults A → CreateInput A → CreateInput A
  fill_defaults defaults input = record input {
    customer_id = trim_space input.customer_id;
    currency = if is_empty input.currency.code then defaults.currency else input.currency;
    principal = if d.is_zero input.principal then defaults.principal else input.principal;
    term_weeks = if is_zero_int input.term_weeks then defaults.term_weeks else input.term_weeks;
  }

  -- A missing start is today; a start is cut to its day.
  abbrev pub fix_start : Time → CreateInput A → CreateInput A
  fix_start now input = record input {
    start_date = truncate_day (if input.start_date == 0 then now else input.start_date);
  }

module _ {A : Type 0} ⦃d : Decimal A⦄ ⦃u : Unicode⦄ ⦃e : Environment⦄ where
  unfoldable pub stored_create : CreateInput A → World A → Result (Deployment A) × World A
  stored_create input w =
      let (r, w') = create_deployment input w in
      elim r [
        | err cause ↦ (err cause, w')
        | ok created ↦ (ok created, set_ref (to_ref created) w')
      ]

  -- `Create`
  unfoldable pub create : Defaults A → CreateInput A → World A → Result (Deployment A) × World A
  unfolding fill_defaults stored_create
  create defaults given w =
      let input = fill_defaults defaults given in
      if is_empty input.customer_id
      then (err (domain err_invalid_customer_id), w)
      else if not (d.is_positive input.principal)
      then (err (domain err_invalid_principal), w)
      else if ltb_ℤ input.term_weeks (pos 0) || ltb_ℤ (pos max_term_weeks) input.term_weeks
      then (err (domain err_invalid_term), w)
      else stored_create (fix_start (e.now w.step) input) w

  -- A deployment that was read from the database.
  unfoldable pub resolve_found : Deployment A → World A → Result (Ref A) × World A
  unfolding is_open
  resolve_found x w =
      if not (is_open x)
      then (err (domain err_no_open_deployment), w)
      else (ok (to_ref x), set_ref (to_ref x) w)

  unfoldable pub resolve_stored : Str → World A → Result (Ref A) × World A
  resolve_stored customer_id w =
      let (r, w') = get_by_customer_id customer_id w in
      elim r [ err cause ↦ (err cause, w') | ok x ↦ resolve_found x w' ]

  -- `Resolve`, on the path of every payment: the cache first, then the database.
  unfoldable pub resolve : Str → World A → Result (Ref A) × World A
  unfolding resolve_stored resolve_found
  resolve given w =
      let customer_id = trim_space given in
      if is_empty customer_id
      then (err (domain err_invalid_customer_id), w)
      else (let (cached, w') = get_ref customer_id w in
          elim cached [ some ref ↦ (ok ref, w') | none ↦ resolve_stored customer_id w' ])

module _ {A : Type 0} ⦃d : Decimal A⦄ ⦃u : Unicode⦄ ⦃e : Environment⦄ ⦃f : Floats⦄ where
  -- `GetPosition` reads the database every time.
  unfoldable pub get_position : Str → Time → World A → Result (Position A) × World A
  get_position customer_id as_of w =
      let (r, w') = get_by_customer_id (trim_space customer_id) w in
      elim r [
        | err cause ↦ (err cause, w')
        | ok x ↦ (ok (position_at x (if as_of == 0 then e.now w'.step else as_of)), w')
      ]
