-- ===== src/Config/RoundTrip.antt =====
-- Numbers as `%d` writes them, through the reader.
use asset_repayment_service.Prelude.{
  ℕ, zero, suc, ◌+◌, ◌-◌, ◌/◌, ◌%◌, ◌^◌, ◌≤◌, ◌<◌, ◌≡◌, inl, inr, some, [], ◌∷◌, arith, ◌∙◌,
  Bool-cases, ltb,
}
use asset_repayment_service.Prelude.Int.{ℤ, pos, negsuc, ◌≤ℤ◌}
use asset_repayment_service.Prelude.Text.{Str, trim_space, digits, decimal}
use asset_repayment_service.Config.Numbers.{good, parse_uint, uint, atoi, nonempty_uint}
use asset_repayment_service.Config.Reader.{Variables, Reader, int, parsed}
use asset_repayment_service.Config.Load.{decimal_ℤ}

parse_uint-digits :
    (fuel n : ℕ) (tail : Str)
    → n < fuel
    → n < 2 ^ 64
    → parse_uint 0 (digits fuel n tail) ≡ parse_uint n tail
unfolding parse_uint
parse_uint-digits zero n tail enough small = absurd (omega arith)
parse_uint-digits (suc fuel) n tail enough small = elim (Bool-cases (ltb n 10)) [
  | inl last ↦ rw last (ground arith)
  | inr more ↦ rw more (
      parse_uint-digits fuel (n / 10) ((48 + n % 10) ∷ tail) (ground arith) (ground arith)
      ∙ ground arith)
]

-- A number starts with a digit.
digits-cases :
    (fuel n : ℕ) (tail : Str)
    → n < fuel
    → (c : ℕ) × ((rest : Str) × (digits fuel n tail ≡ c ∷ rest) × (48 ≤ c) × (c ≤ 57))
digits-cases zero n tail enough = absurd (omega arith)
digits-cases (suc fuel) n tail enough = elim (Bool-cases (ltb n 10)) [
  | inl last ↦ (48 + n, (tail, rw last, ground arith, ground arith))
  | inr more ↦ rw more (digits-cases fuel (n / 10) ((48 + n % 10) ∷ tail) (ground arith))
]

nonempty_uint-decimal : (n : ℕ) → n < 2 ^ 64 → nonempty_uint (decimal n) ≡ uint n
unfolding parse_uint
nonempty_uint-decimal n small =
    let (c, (rest, starts, low, high)) = digits-cases (suc n) n [] (omega arith) in
    let read = parse_uint-digits (suc n) n [] (omega arith) small in ground (arith, starts, read)

atoi-decimal_ℤ :
    (z : ℤ) → negsuc (2 ^ 63 - 1) ≤ℤ z → z ≤ℤ pos (2 ^ 63 - 1) → atoi (decimal_ℤ z) ≡ good z
unfolding atoi
atoi-decimal_ℤ (pos n) low high =
    let (c, (rest, starts, from, to)) = digits-cases (suc n) n [] (omega arith) in
    let read = nonempty_uint-decimal n (omega arith) in ground (arith, starts, read)
atoi-decimal_ℤ (negsuc n) low high =
    let read = nonempty_uint-decimal (n + 1) (omega arith) in ground (arith, read)

-- A variable that holds the decimal text of an integer of 64 bits, with any space around it, is read
-- as this integer, and the reader has no complaint.
pub int-decimal_ℤ :
    (env : Variables) (r : Reader) (key raw : Str) (z : ℤ)
    → env key ≡ some raw
    → trim_space raw ≡ decimal_ℤ z
    → negsuc (2 ^ 63 - 1) ≤ℤ z
    → z ≤ℤ pos (2 ^ 63 - 1)
    → int key env r ≡ (z, r)
unfolding parsed
int-decimal_ℤ env r key raw (pos n) held trimmed low high =
    let (c, (rest, starts, from, to)) = digits-cases (suc n) n [] (omega arith) in
    let read = atoi-decimal_ℤ (pos n) low high in ground (arith, starts, read)
int-decimal_ℤ env r key raw (negsuc n) held trimmed low high =
    let read = atoi-decimal_ℤ (negsuc n) low high in ground (arith, read)
