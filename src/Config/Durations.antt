-- ===== src/Config/Durations.antt =====
-- The loop of `time.ParseDuration`.
use asset_repayment_service.Prelude.{
  ℕ, zero, suc, ◌+◌, ◌-◌, ◌*◌, ◌^◌, ◌%◌, ◌≤◌, ◌<◌, ◌≡◌, ◌≢◌, length, Bool, true, false, inl, inr,
  some, [], ◌∷◌, arith, Option-cases, List-cases, ap,
}
use asset_repayment_service.Prelude.Text.{Str, is_empty}
use asset_repayment_service.Config.Numbers.{
  Fractions, leading_int, leading_fraction, split_unit, duration_term, sum_terms, out_of_fuel,
  fraction_of,
}

length-leading_int :
    (x : ℕ) (s : Str) (v : ℕ) (rest : Str)
    → leading_int x s ≡ some (v, rest)
    → length rest ≤ length s
unfolding leading_int
length-leading_int x [] v rest h = ground arith
length-leading_int x (c ∷ s) v rest h =
    ground (arith, length-leading_int (x * 10 + (c - b'0')) s v rest)

length-leading_fraction :
    (overflow : Bool) (x scale : ℕ) (s : Str)
    → length (leading_fraction overflow x scale s).1 ≤ length s
unfolding leading_fraction
length-leading_fraction overflow x scale [] = ground arith
length-leading_fraction overflow x scale (c ∷ s) = ground (
  arith,
  length-leading_fraction true x scale s,
  length-leading_fraction false (x * 10 + (c - b'0')) (scale * 10) s,
)

length-fraction_of : (s : Str) → length (fraction_of s).1 ≤ length s
length-fraction_of [] = ground arith
length-fraction_of (c ∷ s) = ground (arith, length-leading_fraction false 0 1 s)

length-split_unit : (s : Str) → length (split_unit s).0 + length (split_unit s).1 ≡ length s
unfolding split_unit
length-split_unit [] = omega arith
length-split_unit (c ∷ s) = ground (arith, length-split_unit s)

length-unit : (s : Str) → is_empty (split_unit s).0 ≡ false → length (split_unit s).1 < length s
length-unit s named = elim (List-cases (split_unit s).0) [
  | inl nothing ↦ ground arith
  | inr (c, (rest, unit)) ↦ omega (arith, length-split_unit s, ap length unit)
]

module _ ⦃f : Fractions⦄ where
  -- A term takes a character of the text at least.
  length-duration_term :
      (s : Str) (n : ℕ) (after : Str) → duration_term s ≡ some (n, after) → length after < length s
  unfolding duration_term
  length-duration_term s n after h = elim (Option-cases (leading_int 0 s)) [
    | inl large ↦ ground arith
    | inr ((v, behind), read) ↦
        let rest = (fraction_of behind).1 in
        ground
          (arith, length-leading_int 0 s v behind read, length-fraction_of behind, length-unit rest)
  ]

  -- The length of the text is fuel enough for the loop of `ParseDuration`: it ends in a sum or in an
  -- error, whatever the text and the sum so far.
  sum_terms-ne-out_of_fuel :
      (fuel d : ℕ) (s : Str) → length s ≤ fuel → sum_terms fuel d s ≢ out_of_fuel
  unfolding sum_terms
  sum_terms-ne-out_of_fuel fuel d [] h = cc
  sum_terms-ne-out_of_fuel zero d (c ∷ s) h = absurd (omega arith)
  sum_terms-ne-out_of_fuel (suc fuel) d (c ∷ s) h = elim (Option-cases (duration_term (c ∷ s))) [
    | inl torn ↦ ground arith
    | inr ((n, after), term) ↦
        let shorter = length-duration_term (c ∷ s) n after term in
        ground (arith, shorter, sum_terms-ne-out_of_fuel fuel ((d + n) % 2 ^ 64) after)
  ]
