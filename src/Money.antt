-- ===== src/Money.antt =====
-- src/pkg/money/money.go. The decimals are those of github.com/shopspring/decimal, which the
-- repository does not hold: they are a type with operations and their documented laws, taken as an
-- instance argument by everything that computes with amounts.
pub mod Decimal
pub mod Currency
pub mod Parse
pub mod Laws
