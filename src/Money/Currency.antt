-- ===== src/Money/Currency.antt =====
-- `Currency`, the table of known currencies and `Lookup`.
use asset_repayment_service.Prelude.{
  ℕ, ◌+◌, ◌-◌, none, some, List, [], ◌∷◌, map, find, ltb, leb, if◌then◌else◌, ◌&&◌,
}
use asset_repayment_service.Prelude.Text.{Str, text, str_eq, trim_space}

pub record Currency : Type 0 where
  pub code : Str
  pub symbol : Str
  pub scale : ℕ

abbrev pub default_scale : ℕ
default_scale = 2

abbrev pub currency : Str → Str → ℕ → Currency
currency code symbol scale = record { code = code; symbol = symbol; scale = scale }

abbrev pub currencies : List Currency
currencies =
    currency (text "NGN") (text "₦") 2
    ∷ currency (text "USD") (text "$") 2
    ∷ currency (text "EUR") (text "€") 2
    ∷ currency (text "GBP") (text "£") 2
    ∷ currency (text "KES") (text "KSh") 2
    ∷ currency (text "GHS") (text "₵") 2
    ∷ currency (text "ZAR") (text "R") 2
    ∷ currency (text "JPY") (text "¥") 0
    ∷ currency (text "KWD") (text "KD") 3
    ∷ currency (text "TND") (text "DT") 3
    ∷ []

-- `unicode.ToUpper` and `unicode.ToLower`: ASCII is written out; `upper` and `lower`, the Unicode
-- tables beyond it, are parameters.
pub record Unicode : Type 0 where
  pub upper : ℕ → ℕ
  pub lower : ℕ → ℕ

module _ ⦃u : Unicode⦄ where
  unfoldable pub to_upper_rune : ℕ → ℕ
  to_upper_rune c =
      if ltb c 0x80 then (if leb 0x61 c && leb c 0x7a then c - 32 else c) else u.upper c

  unfoldable pub to_lower_rune : ℕ → ℕ
  to_lower_rune c =
      if ltb c 0x80 then (if leb 0x41 c && leb c 0x5a then c + 32 else c) else u.lower c

  -- `strings.ToLower`.
  abbrev pub to_lower : Str → Str
  to_lower = map to_lower_rune

  -- `strings.ToUpper`.
  abbrev pub to_upper : Str → Str
  to_upper = map to_upper_rune

  unfoldable pub lookup : Str → Currency
  unfolding str_eq find trim_space to_upper_rune
  lookup code =
      let normalised = to_upper (trim_space code) in
      elim (find (λ (c : Currency). str_eq c.code normalised) currencies) [
        | some found ↦ found
        | none ↦ record { code = normalised; symbol = []; scale = default_scale }
      ]
