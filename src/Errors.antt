-- ===== src/Errors.antt =====
-- src/pkg/errors: the errors of the domain with their response codes, and how Go's `error` values
-- wrap one another. A pointer to a package-level error is kept apart from a fresh copy, since
-- `errors.Is` compares pointers.
use asset_repayment_service.Prelude.{
  ℕ, ◌≡◌, refl, ◌⊎◌, inl, inr, Bool, true, false, Option, none, some, List, [], ◌++◌, if◌then◌else◌,
}
use asset_repayment_service.Prelude.Text.{Str, text}

-- `map[string]any` of field names and messages.
abbrev pub Details : Type 0
Details = List (Str × Str)

-- The package-level variables that the code compares against.
pub data Sentinel : Type 0 where
  deployment_not_found no_open_deployment other : Sentinel

mutual
  -- `error`; `nil_error` is the nil interface in a `DomainError`'s `internal` field.
  pub data GoError : Type 0 where
    nil_error : GoError
    -- `errors.New`, or an error of a driver (`sql.ErrNoRows` is the result `no_row` of a query)
    plain : Str → GoError
    -- `*pgconn.PgError` with its SQLSTATE
    pg_error : Str → GoError
    -- `fmt.Errorf("...: %w", err)`
    wrapped : Str → GoError → GoError
    domain : DomainError → GoError

  -- `DomainError`, with the variable that it is, if it is one.
  pub data DomainError : Type 0 where
    domain_error :
        (variable : Sentinel) (code : ℕ) (message : Str) (details : Details) (internal : GoError)
        → DomainError

-- A Go function's `(value, error)`.
pub data Result {ℓ} (X : Type ℓ) : Type ℓ where
  ok : X → Result X
  err : GoError → Result X

pub Result-cases {ℓ} :
    {X : Type ℓ} (r : Result X) → ((x : X) × (r ≡ ok x)) ⊎ ((e : GoError) × (r ≡ err e))
Result-cases (ok x) = inl (x, refl)
Result-cases (err e) = inr (e, refl)

-- codes.go
abbrev pub code_bad_request : ℕ
code_bad_request = 400

abbrev pub code_unauthorized : ℕ
code_unauthorized = 401

abbrev pub code_not_found : ℕ
code_not_found = 404

abbrev pub code_conflict : ℕ
code_conflict = 409

abbrev pub code_failed_precondition : ℕ
code_failed_precondition = 412

abbrev pub code_too_many_requests : ℕ
code_too_many_requests = 429

abbrev pub code_internal : ℕ
code_internal = 500

abbrev pub code_unavailable : ℕ
code_unavailable = 503

abbrev pub code_of : DomainError → ℕ
code_of (domain_error _ c _ _ _) = c

abbrev pub details_of : DomainError → Details
details_of (domain_error _ _ _ d _) = d

abbrev pub message_of : DomainError → Str
message_of (domain_error _ _ m _ _) = m

-- The constructors `BadRequest`, `Conflict`, …: a code and a message.
abbrev pub coded : ℕ → Str → DomainError
coded code message = domain_error Sentinel.other code message [] nil_error

abbrev pub not_found : Sentinel → Str → DomainError
not_found v resource = domain_error v code_not_found (resource ++ text " not found") [] nil_error

abbrev pub bad_request : Str → DomainError
bad_request = coded code_bad_request

abbrev pub unauthorized : DomainError
unauthorized = coded code_unauthorized (text "unauthorized")

abbrev pub conflict : Str → DomainError
conflict = coded code_conflict

abbrev pub too_many_requests : Str → DomainError
too_many_requests = coded code_too_many_requests

abbrev pub validation_failed : Details → DomainError
validation_failed details =
    domain_error Sentinel.other code_bad_request (text "validation failed") details nil_error

abbrev pub internal_error : DomainError
internal_error = coded code_internal (text "internal server error")

abbrev pub unavailable : DomainError
unavailable = coded code_unavailable (text "service unavailable")

-- `WithCause` and `WithDetails` copy, so that the shared variable keeps its fields.
abbrev pub with_cause : DomainError → GoError → DomainError
with_cause (domain_error _ c m d _) cause = domain_error Sentinel.other c m d cause

abbrev pub with_details : DomainError → Details → DomainError
with_details (domain_error _ c m _ i) details = domain_error Sentinel.other c m details i

-- `errors.As(err, &domainErr)`: the first `DomainError` of the chain.
unfoldable pub find_domain : GoError → Option DomainError
find_domain nil_error = none
find_domain (plain _) = none
find_domain (pg_error _) = none
find_domain (wrapped _ e) = find_domain e
find_domain (domain d) = some d

-- `errors.As(err, &pgErr) && pgErr.Code == code` looks through domain errors too.
unfoldable mutual
  pub find_pg : GoError → Option Str
  find_pg nil_error = none
  find_pg (plain _) = none
  find_pg (pg_error c) = some c
  find_pg (wrapped _ e) = find_pg e
  find_pg (domain d) = find_pg_domain d

  pub find_pg_domain : DomainError → Option Str
  find_pg_domain (domain_error _ _ _ _ i) = find_pg i

-- One of the two variables that `isRoutingFailure` names.
abbrev pub is_routing_variable : Sentinel → Bool
is_routing_variable Sentinel.deployment_not_found = true
is_routing_variable Sentinel.no_open_deployment = true
is_routing_variable Sentinel.other = false

-- `errors.Is(err, deployment.ErrNotFound) || errors.Is(err, deployment.ErrNoOpenDeployment)`.
unfoldable mutual
  pub has_routing_variable : GoError → Bool
  has_routing_variable nil_error = false
  has_routing_variable (plain _) = false
  has_routing_variable (pg_error _) = false
  has_routing_variable (wrapped _ e) = has_routing_variable e
  has_routing_variable (domain d) = has_routing_variable_domain d

  pub has_routing_variable_domain : DomainError → Bool
  has_routing_variable_domain (domain_error v _ _ _ i) =
      if is_routing_variable v then true else has_routing_variable i

-- `AsDomainError`: what is not a domain error becomes a 500 that hides its message.
unfoldable pub as_domain_error : GoError → DomainError
unfolding find_domain
as_domain_error e = elim (find_domain e) [ some d ↦ d | none ↦ with_cause internal_error e ]

-- The status of the response, `AsDomainError(err).HTTPCode()`.
unfoldable pub http_code : GoError → ℕ
unfolding as_domain_error
http_code e = code_of (as_domain_error e)
