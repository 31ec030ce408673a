-- ===== src/Config/Numbers.antt =====
-- What the reader takes from Go's standard library: `strconv.Atoi`, `strconv.ParseBool` and
-- `time.ParseDuration`. A refused text has the value that Go returns beside its error.
use asset_repayment_service.Prelude.{
  ℕ, zero, suc, ◌+◌, ◌-◌, ◌*◌, ◌/◌, ◌%◌, ◌^◌, Bool, true, false, not, ◌&&◌, ◌||◌, ◌==◌, ltb, leb,
  Option, none, some, List, [], ◌∷◌, length, if◌then◌else◌,
}
use asset_repayment_service.Prelude.Int.{ℤ, pos, negsuc}
use asset_repayment_service.Prelude.Text.{Str, text, str_eq, is_empty}

-- A value, and whether the error is nil.
pub record Read (X : Type 0) : Type 0 where
  pub value : X
  pub is_valid : Bool

abbrev pub good : {X : Type 0} → X → Read X
good x = record { value = x; is_valid = true }

abbrev pub bad : {X : Type 0} → X → Read X
bad x = record { value = x; is_valid = false }

abbrev pub is_digit : ℕ → Bool
is_digit c = leb b'0' c && leb c b'9'

-- A sign in front, and the rest.
abbrev pub sign : Str → Bool × Str
sign [] = (false, [])
sign (c ∷ s) = if c == b'-' then (true, s) else if c == b'+' then (false, s) else (false, c ∷ s)

-- `strconv.ParseUint` in base 10.
pub data Uint : Type 0 where
  uint : ℕ → Uint
  no_uint out_of_range : Uint

unfoldable pub parse_uint : ℕ → Str → Uint
parse_uint n [] = uint n
parse_uint n (c ∷ s) =
    let rest = parse_uint (n * 10 + (c - b'0')) s in
    if not (is_digit c)
    then no_uint
    else if leb (2 ^ 64) (n * 10 + (c - b'0'))
    then out_of_range
    else rest

abbrev pub minus : ℕ → ℤ
minus zero = pos 0
minus (suc n) = negsuc n

-- `strconv.ParseInt`, where a text out of range is cut off at the nearest `int64`.
abbrev pub clamp_int : Bool → Uint → Read ℤ
clamp_int negative no_uint = bad (pos 0)
clamp_int false out_of_range = bad (pos (2 ^ 63 - 1))
clamp_int true out_of_range = bad (minus (2 ^ 63))
clamp_int false (uint n) = if leb (2 ^ 63) n then bad (pos (2 ^ 63 - 1)) else good (pos n)
clamp_int true (uint n) = if ltb (2 ^ 63) n then bad (minus (2 ^ 63)) else good (minus n)

abbrev pub nonempty_uint : Str → Uint
nonempty_uint [] = no_uint
nonempty_uint (c ∷ s) = parse_uint 0 (c ∷ s)

unfoldable pub atoi : Str → Read ℤ
unfolding parse_uint
atoi s = let (negative, rest) = sign s in clamp_int negative (nonempty_uint rest)

abbrev true_words : List Str
true_words = text "1" ∷ text "t" ∷ text "T" ∷ text "true" ∷ text "TRUE" ∷ text "True" ∷ []

abbrev false_words : List Str
false_words = text "0" ∷ text "f" ∷ text "F" ∷ text "false" ∷ text "FALSE" ∷ text "False" ∷ []

unfoldable pub is_word : Str → List Str → Bool
unfolding str_eq
is_word s [] = false
is_word s (w ∷ ws) = str_eq s w || is_word s ws

unfoldable pub parse_bool : Str → Read Bool
unfolding is_word
parse_bool s =
    if is_word s true_words
    then good true
    else if is_word s false_words
    then good false
    else bad false

-- The floating-point product of `ParseDuration`: `uint64(float64(f) * (float64(unit) / scale))`.
pub record Fractions : Type 0 where
  pub share : (f unit scale : ℕ) → ℕ

-- `leadingInt`: the digits in front, unless they pass 2^63, and the rest.
unfoldable pub leading_int : ℕ → Str → Option (ℕ × Str)
leading_int x [] = some (x, [])
leading_int x (c ∷ s) =
    let rest = leading_int (x * 10 + (c - b'0')) s in
    if not (is_digit c)
    then some (x, c ∷ s)
    else if ltb (2 ^ 63 / 10) x || ltb (2 ^ 63) (x * 10 + (c - b'0'))
    then none
    else rest

-- `leadingFraction`: digits past the range are skipped; the value, its scale and the rest.
unfoldable pub leading_fraction : Bool → ℕ → ℕ → Str → (ℕ × ℕ) × Str
leading_fraction overflow x scale [] = ((x, scale), [])
leading_fraction overflow x scale (c ∷ s) =
    let full = overflow || ltb ((2 ^ 63 - 1) / 10) x || ltb (2 ^ 63) (x * 10 + (c - b'0')) in
    let skipped = leading_fraction true x scale s in
    let taken = leading_fraction false (x * 10 + (c - b'0')) (scale * 10) s in
    if not (is_digit c) then ((x, scale), c ∷ s) else if full then skipped else taken

-- The unit runs up to the next digit or point.
unfoldable pub split_unit : Str → Str × Str
split_unit [] = ([], [])
split_unit (c ∷ s) =
    let (unit, rest) = split_unit s in
    if c == b'.' || is_digit c then ([], c ∷ s) else (c ∷ unit, rest)

-- `unitMap`, in nanoseconds; both spellings of the micro sign.
abbrev pub units : List (Str × ℕ)
units =
    (text "ns", 1)
    ∷ (text "us", 1000)
    ∷ (text "µs", 1000)
    ∷ (text "μs", 1000)
    ∷ (text "ms", 1000000)
    ∷ (text "s", 1000000000)
    ∷ (text "m", 60000000000)
    ∷ (text "h", 3600000000000)
    ∷ []

unfoldable pub unit_of : Str → List (Str × ℕ) → Option ℕ
unfolding str_eq
unit_of s [] = none
unit_of s ((name, size) ∷ rest) = if str_eq s name then some size else unit_of s rest

-- A fraction behind a point.
abbrev pub fraction_of : Str → (ℕ × ℕ) × Str
fraction_of [] = ((0, 1), [])
fraction_of (c ∷ s) = if c == b'.' then leading_fraction false 0 1 s else ((0, 1), c ∷ s)

abbrev pub has_fraction_digits : Str → Str → Bool
has_fraction_digits [] rest = false
has_fraction_digits (c ∷ s) rest = c == b'.' && ltb (length rest) (length s)

abbrev pub starts_number : Str → Bool
starts_number [] = false
starts_number (c ∷ s) = c == b'.' || is_digit c

-- The sum of the terms of a duration.
pub data Sum : Type 0 where
  nanos : ℕ → Sum
  no_sum out_of_fuel : Sum

module _ ⦃f : Fractions⦄ where
  -- `v` units with the fraction, unless it passes 2^63.
  unfoldable pub scaled : ℕ → ℕ → ℕ → ℕ → Option ℕ
  scaled v digits scale zero = none
  scaled v digits scale unit =
      if ltb (2 ^ 63 / unit) v
      then none
      else if digits == 0
      then some (v * unit)
      else let total = (v * unit + f.share digits unit scale) % 2 ^ 64 in
        if ltb (2 ^ 63) total then none else some total

  -- One number with its unit: its nanoseconds and the rest of the text.
  unfoldable pub duration_term : Str → Option (ℕ × Str)
  unfolding leading_int leading_fraction split_unit unit_of scaled
  duration_term s = if not (starts_number s) then none else elim (leading_int 0 s) [
    | none ↦ none
    | some (v, behind) ↦
        let ((digits, scale), rest) = fraction_of behind in
        let (unit, after) = split_unit rest in
        if not (ltb (length behind) (length s) || has_fraction_digits behind rest)
        then none
        else if is_empty unit
        then none
        else elim (unit_of unit units) [
          | none ↦ none
          | some size ↦ elim (scaled v digits scale size) [ none ↦ none | some n ↦ some (n, after) ]
        ]
  ]

  -- The loop of `ParseDuration` over the terms, with their `uint64` sum.
  unfoldable pub sum_terms : ℕ → ℕ → Str → Sum
  unfolding duration_term
  sum_terms fuel d [] = nanos d
  sum_terms zero d (c ∷ s) = out_of_fuel
  sum_terms (suc fuel) d (c ∷ s) = elim (duration_term (c ∷ s)) [
    | none ↦ no_sum
    | some (n, after) ↦
        let total = (d + n) % 2 ^ 64 in
        if ltb (2 ^ 63) total then no_sum else sum_terms fuel total after
  ]

  abbrev pub signed_duration : Bool → Sum → Read ℤ
  signed_duration negative no_sum = bad (pos 0)
  signed_duration negative out_of_fuel = bad (pos 0)
  signed_duration true (nanos d) = good (minus d)
  signed_duration false (nanos d) = if ltb (2 ^ 63 - 1) d then bad (pos 0) else good (pos d)

  -- `time.ParseDuration`; a term takes a character at least, so that the length is fuel enough.
  unfoldable pub parse_duration : Str → Read ℤ
  unfolding sum_terms str_eq
  parse_duration s =
      let (negative, rest) = sign s in
      if str_eq rest (text "0")
      then good (pos 0)
      else if is_empty rest
      then bad (pos 0)
      else signed_duration negative (sum_terms (length rest) 0 rest)
