-- ===== src/Config/Reader.antt =====
-- `reader`: settings out of the environment, with the problems that it has met so far.
use asset_repayment_service.Prelude.{
  Bool, false, Option, none, some, List, [], ◌∷◌, ◌++◌, if◌then◌else◌,
}
use asset_repayment_service.Prelude.Int.{ℤ, pos}
use asset_repayment_service.Prelude.Text.{Str, text, trim_space, is_empty}
use asset_repayment_service.Errors.{GoError, plain}
use asset_repayment_service.Config.Numbers.{Read, Fractions, atoi, parse_bool, parse_duration}

-- `os.LookupEnv`
abbrev pub Variables : Type 0
Variables = Str → Option Str

pub record Reader : Type 0 where
  pub missing : List Str
  pub invalid : List Str

abbrev pub new_reader : Reader
new_reader = record { missing = []; invalid = [] }

-- A method of the reader: it looks variables up and may add to the problems.
abbrev pub Reads : Type 0 → Type 0
Reads X = Variables → Reader → X × Reader

infixl 5 ◌>>=◌
abbrev pub ◌>>=◌ : {X Y : Type 0} → Reads X → (X → Reads Y) → Reads Y
◌>>=◌ m f env r = let (x, r') = m env r in f x env r'

abbrev pub return : {X : Type 0} → X → Reads X
return x env r = (x, r)

abbrev add_missing : Str → Reader → Reader
add_missing key r = record r { missing = r.missing ++ key ∷ [] }

abbrev add_invalid : Str → Str → Reader → Reader
add_invalid key want r = record r { invalid = r.invalid ++ (key ++ want) ∷ [] }

-- `str`: present, and not empty once trimmed.
unfoldable pub str : Str → Reads Str
unfolding trim_space
str key env r = elim (env key) [
  | none ↦ ([], add_missing key r)
  | some value ↦
      let trimmed = trim_space value in (trimmed, if is_empty trimmed then add_missing key r else r)
]

-- `optional`: present.
unfoldable pub optional : Str → Reads Str
unfolding trim_space
optional key env r = elim (env key) [
  | none ↦ ([], add_missing key r)
  | some value ↦ (trim_space value, r)
]

module _ {X : Type 0} (blank : X) (want : Str) (parse : Str → Read X) where
  after_key : Str → Reader → Str → X × Reader
  after_key key r [] = (blank, r)
  after_key key r (c ∷ s) =
      let read = parse (c ∷ s) in (read.value, if read.is_valid then r else add_invalid key want r)

  -- The common shape of `int`, `bool` and `duration`.
  unfoldable pub parsed : Str → Reads X
  unfolding str after_key
  parsed key env r = let (raw, r') = str key env r in after_key key r' raw

abbrev pub want_number : Str
want_number = text " (want a number)"

abbrev pub want_flag : Str
want_flag = text " (want true or false)"

abbrev pub want_span : Str
want_span = text " (want a duration such as 10s)"

-- `int`
abbrev pub int : Str → Reads ℤ
int = parsed (pos 0) want_number atoi

-- `bool`
abbrev pub bool : Str → Reads Bool
bool = parsed false want_flag parse_bool

-- `duration`, in nanoseconds.
abbrev pub duration : ⦃f : Fractions⦄ → Str → Reads ℤ
duration ⦃f⦄ = parsed (pos 0) want_span (parse_duration ⦃f = f⦄)

-- `strings.Join`
unfoldable pub join : Str → List Str → Str
join separator [] = []
join separator (x ∷ []) = x
join separator (x ∷ y ∷ xs) = x ++ (separator ++ join separator (y ∷ xs))

abbrev section : Str → List Str → List Str
section title [] = []
section title (x ∷ xs) = (title ++ join (text ", ") (x ∷ xs)) ∷ []

abbrev report : List Str → Option GoError
report [] = none
report (p ∷ ps) =
    some
      (plain (text "configuration " ++ (join (text "; ") (p ∷ ps) ++ text " — see .env.example")))

-- `err`; `none` is a nil error.
unfoldable pub problems : Reader → Option GoError
unfolding join
problems r = report (section (text "missing: ") r.missing ++ section (text "invalid: ") r.invalid)
