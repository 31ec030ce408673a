-- ===== src/Money/Laws.antt =====
-- What an accepted amount is.
use asset_repayment_service.Prelude.{◌≡◌, ◌≤◌, arith}
use asset_repayment_service.Prelude.Int.{pos, ◌-ℤ◌, ◌≤ℤ◌}
use asset_repayment_service.Prelude.Text.{Str, byte_len}
use asset_repayment_service.Money.Decimal.{Decimal, IsPositive, is_positive_true}
use asset_repayment_service.Money.Currency.{Currency}
use asset_repayment_service.Money.Parse.{parse_positive, amount, max_integer_digits}

module _ {A : Type 0} ⦃d : Decimal A⦄ where
  -- An amount that `ParsePositive` accepts is above zero, has no more decimals than its currency
  -- allows, and has at most 18 integer digits.
  pub parse_positive_accepts :
      (raw : Str) (currency : Currency) (a : A)
      → parse_positive raw currency ≡ amount a
      → IsPositive a
        × (pos 0 -ℤ d.exponent a ≤ℤ pos currency.scale)
        × (byte_len (d.to_string (d.abs (d.truncate_int a))) ≤ max_integer_digits)
  unfolding parse_positive
  parse_positive_accepts raw currency a h = ground (arith, is_positive_true a)
