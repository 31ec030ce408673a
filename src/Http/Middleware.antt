-- ===== src/Http/Middleware.antt =====
-- middleware.go from the body inwards, and response.go. A request is its signature header and its body
-- as bytes; the deadline of the context is a fault of the call that it cuts off. HMAC-SHA256 is a
-- parameter.
use asset_repayment_service.Prelude.{
  ℕ, suc, ◌-◌, Bool, true, false, Option, none, some, List, [], ◌∷◌, ◌++◌, ltb, length,
  if◌then◌else◌,
}
use asset_repayment_service.Prelude.Text.{
  Str, text, str_eq, trim_space, trim_prefix, is_empty, decimal,
}
use asset_repayment_service.Errors.{
  GoError, domain, Details, as_domain_error, http_code, message_of, details_of, unauthorized,
  bad_request,
}
use asset_repayment_service.Money.Currency.{Unicode, to_lower}
use asset_repayment_service.Payment.Entity.{err_overloaded}
use asset_repayment_service.World.State.{World}

pub record Request : Type 0 where
  pub signature : Str
  pub body : Str

-- `Envelope` with its status code.
pub record Response (B : Type 0) : Type 0 where
  pub code : ℕ
  pub is_success : Bool
  pub message : Str
  pub errors : Details
  pub content : Option B

pub record Hmac : Type 0 where
  -- the digest of a body under a secret, in hexadecimal
  pub hex_digest : Str → Str → Str

-- The process: the world, and the slots of the semaphore that are taken.
pub record Server (A : Type 0) : Type 0 where
  pub world : World A
  pub inflight : ℕ

abbrev pub Handler : Type 0 → Type 0 → Type 0
Handler A B = Request → Server A → Response B × Server A

module _ {B : Type 0} where
  -- `Success`
  abbrev pub success : ℕ → Str → B → Response B
  success code message content = record {
    code = code;
    is_success = true;
    message = message;
    errors = [];
    content = some content;
  }

  -- `Error`
  unfoldable pub error_response : GoError → Response B
  unfolding http_code as_domain_error
  error_response e = record {
    code = http_code e;
    is_success = false;
    message = message_of (as_domain_error e);
    errors = details_of (as_domain_error e);
    content = none;
  }

abbrev body_message : ℕ → Str
body_message max_bytes =
    text "request body exceeds the " ++ decimal max_bytes ++ text " byte limit or could not be read"

module _ {A B : Type 0} where
  -- `Chain`: the first listed runs outermost.
  unfoldable pub chain : Handler A B → List (Handler A B → Handler A B) → Handler A B
  chain h [] = h
  chain h (m ∷ ms) = m (chain h ms)

  -- `Body`; a body that cannot be read gets the same answer.
  unfoldable pub body_limit : ℕ → Handler A B → Handler A B
  unfolding error_response
  body_limit max_bytes next r s =
      if ltb max_bytes (length r.body)
      then (error_response (domain (bad_request (body_message max_bytes))), s)
      else next r s

  -- `LoadShedding`
  unfoldable pub load_shedding : ℕ → Handler A B → Handler A B
  unfolding error_response
  load_shedding ceiling next r s =
      if ltb s.inflight ceiling
      then (let (answer, s') = next r (record s { inflight = suc s.inflight }) in
          (answer, record s' { inflight = s'.inflight - 1 }))
      else (error_response (domain err_overloaded), s)

-- The comparison of `Signature`.
unfoldable pub signature_matches : ⦃u : Unicode⦄ → ⦃h : Hmac⦄ → Str → Request → Bool
unfolding trim_space trim_prefix str_eq
signature_matches ⦃h = h⦄ secret r =
    let provided = trim_space r.signature in
    if is_empty provided
    then false
    else str_eq (to_lower (trim_prefix provided (text "sha256="))) (h.hex_digest secret r.body)

module _ {A B : Type 0} ⦃u : Unicode⦄ ⦃h : Hmac⦄ where
  -- `Signature`, without effect while no secret is set.
  unfoldable pub check_signature : Str → Handler A B → Handler A B
  unfolding signature_matches error_response
  check_signature secret next r s =
      if is_empty secret
      then next r s
      else if signature_matches secret r
      then next r s
      else (error_response (domain unauthorized), s)
