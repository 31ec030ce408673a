-- ===== src/Money/Parse.antt =====
-- `Parse`, `ParsePositive` and the small arithmetic of money.go.
use asset_repayment_service.Prelude.{ℕ, zero, none, some, ltb, if◌then◌else◌}
use asset_repayment_service.Prelude.Int.{ℤ, pos, ◌-ℤ◌, ltb_ℤ}
use asset_repayment_service.Prelude.Text.{
  Str, text, byte_len, trim_space, remove_all, trim_prefix, is_empty,
}
use asset_repayment_service.Money.Decimal.{Decimal}
use asset_repayment_service.Money.Currency.{Currency}

abbrev pub max_integer_digits : ℕ
max_integer_digits = 18

-- The package's error variables.
pub data MoneyError : Type 0 where
  invalid_amount negative_amount amount_too_large too_precise : MoneyError

-- `err.Error()`.
abbrev pub money_message : MoneyError → Str
money_message invalid_amount = text "must be a valid decimal amount"
money_message negative_amount = text "must be greater than zero"
money_message amount_too_large = text "exceeds the maximum representable amount"
money_message too_precise = text "has more decimal places than the currency allows"

pub data Parsed (A : Type 0) : Type 0 where
  amount : A → Parsed A
  refused : MoneyError → Parsed A

-- What `Parse` hands to `decimal.NewFromString`.
unfoldable pub clean : Str → Currency → Str
unfolding trim_space remove_all trim_prefix
clean raw currency =
    let spaced = remove_all b',' (trim_space raw) in
    let coded = trim_prefix (remove_all b' ' spaced) currency.code in
    if is_empty currency.symbol then coded else trim_prefix coded currency.symbol

module _ {A : Type 0} ⦃d : Decimal A⦄ where
  unfoldable pub check_amount : A → Currency → Parsed A
  unfolding byte_len ◌-ℤ◌
  check_amount a currency =
      if ltb max_integer_digits (byte_len (d.to_string (d.abs (d.truncate_int a))))
      then refused amount_too_large
      else if ltb_ℤ (pos currency.scale) (pos 0 -ℤ d.exponent a)
      then refused too_precise
      else amount a

  unfoldable pub parse : Str → Currency → Parsed A
  unfolding check_amount clean
  parse raw currency =
      let cleaned = clean raw currency in
      if is_empty cleaned then refused invalid_amount else elim (d.new_from_string cleaned) [
        | none ↦ refused invalid_amount
        | some a ↦ check_amount a currency
      ]

  positive_only : Parsed A → Parsed A
  positive_only (refused e) = refused e
  positive_only (amount a) = if d.is_positive a then amount a else refused negative_amount

  unfoldable pub parse_positive : Str → Currency → Parsed A
  unfolding parse positive_only
  parse_positive raw currency = positive_only (parse raw currency)

  -- `Format`.
  unfoldable pub format : A → Currency → Str
  format a currency = d.string_fixed a currency.scale

  -- `NonNegative`.
  unfoldable pub non_negative : A → A
  non_negative a = d.max_of a d.zero_amount

  -- `Prorate`.
  unfoldable pub prorate : A → ℤ → ℤ → Currency → A
  prorate a numerator (pos zero) currency = d.zero_amount
  prorate a numerator denominator currency =
      d.div_round (d.mul a (d.new_from_int numerator)) (d.new_from_int denominator) currency.scale
