-- ===== src/Money/Decimal.antt =====
-- `money.Amount`, an alias of `decimal.Decimal`, as a parameter. The carrier is the decimals that
-- have at most `places` digits behind the point, for any `places` that the run at hand needs: those
-- are closed under the operations below. `units` is the exact value, counted in the last place.
use asset_repayment_service.Prelude.{
  ℕ, ◌+◌, ◌≤◌, ◌<◌, ◌≡◌, ◌⊎◌, Bool, true, false, Option, arith, ltb, ◌==◌, if◌then◌else◌,
}
use asset_repayment_service.Prelude.Int.{
  ℤ, pos, pos_part, neg_part, ◌+ℤ◌, ◌-ℤ◌, leb_ℤ, +ℤ_parts, -ℤ_parts,
}
use asset_repayment_service.Prelude.Text.{Str}

pub record Decimal (A : Type 0) : Type 0 where
  pub places : ℕ
  pub units : A → ℤ
  pub zero_amount : A
  pub new_from_string : Str → Option A
  pub new_from_int : ℤ → A
  pub to_string : A → Str
  pub string_fixed : A → ℕ → Str
  pub exponent : A → ℤ
  pub truncate_int : A → A
  pub abs : A → A
  pub add : A → A → A
  pub sub : A → A → A
  pub mul : A → A → A
  pub div : A → A → A
  pub div_round : A → A → ℕ → A
  pub min_of : A → A → A
  pub max_of : A → A → A
  pub less : A → A → Bool
  pub equal : A → A → Bool
  pub is_zero : A → Bool
  pub is_positive : A → Bool
  -- `InexactFloat64`, as the bits of the float
  pub inexact_float64 : A → ℕ
  -- the documented laws: +, - and comparisons are exact on values
  pub zero_lem : units zero_amount ≡ pos 0
  pub add_lem : (a b : A) → units (add a b) ≡ units a +ℤ units b
  pub sub_lem : (a b : A) → units (sub a b) ≡ units a -ℤ units b
  pub min_lem :
      (a b : A) → units (min_of a b) ≡ (if leb_ℤ (units a) (units b) then units a else units b)
  pub max_lem :
      (a b : A) → units (max_of a b) ≡ (if leb_ℤ (units a) (units b) then units b else units a)
  pub less_lem :
      (a b : A)
      → less a b
        ≡ ltb (pos_part (units a) + neg_part (units b)) (pos_part (units b) + neg_part (units a))
  pub equal_lem :
      (a b : A)
      → equal a b
        ≡ ((pos_part (units a) + neg_part (units b)) == (pos_part (units b) + neg_part (units a)))
  pub is_zero_lem : (a : A) → is_zero a ≡ (pos_part (units a) == neg_part (units a))
  pub is_positive_lem : (a : A) → is_positive a ≡ ltb (neg_part (units a)) (pos_part (units a))

pub zero_parts :
    {A : Type 0} (d : Decimal A)
    → pos_part (d.units d.zero_amount) ≡ neg_part (d.units d.zero_amount)
zero_parts d = rw d.zero_lem

module _ {A : Type 0} ⦃d : Decimal A⦄ where
  -- The parts of a value above and below zero.
  abbrev pub up : A → ℕ
  up a = pos_part (d.units a)

  abbrev pub down : A → ℕ
  down a = neg_part (d.units a)

  -- Two amounts of one value, and the order of values.
  abbrev pub SameValue : A → A → Type 0
  SameValue a b = up a + down b ≡ up b + down a

  abbrev pub AtMost : A → A → Type 0
  AtMost a b = up a + down b ≤ up b + down a

  abbrev pub Below : A → A → Type 0
  Below a b = up a + down b < up b + down a

  abbrev pub IsNonNegative : A → Type 0
  IsNonNegative a = down a ≤ up a

  abbrev pub IsPositive : A → Type 0
  IsPositive a = down a < up a

  pub add_parts : (a b : A) → up (d.add a b) + down a + down b ≡ down (d.add a b) + up a + up b
  add_parts a b = rw (d.add_lem a b) (+ℤ_parts (d.units a) (d.units b))

  pub sub_parts : (a b : A) → up (d.sub a b) + down a + up b ≡ down (d.sub a b) + up a + down b
  sub_parts a b = rw (d.sub_lem a b) (-ℤ_parts (d.units a) (d.units b))

  pub min_parts :
      (a b : A)
      → (AtMost a b × (up (d.min_of a b) ≡ up a) × (down (d.min_of a b) ≡ down a))
        ⊎ (Below b a × (up (d.min_of a b) ≡ up b) × (down (d.min_of a b) ≡ down b))
  min_parts a b = ground (arith, d.min_lem a b)

  pub max_parts :
      (a b : A)
      → (AtMost a b × (up (d.max_of a b) ≡ up b) × (down (d.max_of a b) ≡ down b))
        ⊎ (Below b a × (up (d.max_of a b) ≡ up a) × (down (d.max_of a b) ≡ down a))
  max_parts a b = ground (arith, d.max_lem a b)

  pub less_true : (a b : A) → d.less a b ≡ true → Below a b
  less_true a b h = ground (arith, d.less_lem a b)

  pub less_false : (a b : A) → d.less a b ≡ false → AtMost b a
  less_false a b h = ground (arith, d.less_lem a b)

  pub is_positive_true : (a : A) → d.is_positive a ≡ true → IsPositive a
  is_positive_true a h = ground (arith, d.is_positive_lem a)

  pub is_positive_false : (a : A) → d.is_positive a ≡ false → up a ≤ down a
  is_positive_false a h = ground (arith, d.is_positive_lem a)

  pub equal_true : (a b : A) → d.equal a b ≡ true → SameValue a b
  equal_true a b h = ground (arith, d.equal_lem a b)

  pub equal_of_same : (a b : A) → SameValue a b → d.equal a b ≡ true
  equal_of_same a b h = ground (arith, d.equal_lem a b)
