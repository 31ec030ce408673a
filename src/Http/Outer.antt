-- ===== src/Http/Outer.antt =====
-- The middleware that every route shares around the body: Recovery, RequestID and Observability
-- (middleware.go), and the request id of the envelope (response.go). A panic is the answer `none`.
use asset_repayment_service.Prelude.{ℕ, ◌/◌, Option, none, some, List, ◌∷◌, ◌++◌, if◌then◌else◌}
use asset_repayment_service.Prelude.Text.{Str, text, is_empty, decimal}
use asset_repayment_service.Errors.{domain, internal_error}
use asset_repayment_service.World.State.{Environment}
use asset_repayment_service.Http.Middleware.{Request, Response, Server, Handler, error_response}

pub record Call : Type 0 where
  pub method : Str
  pub path : Str
  -- the header X-Request-ID
  pub request_id : Str
  pub request : Request

-- `RecordHTTP`: one request in the counter, by its labels.
pub record Served : Type 0 where
  pub route : Str
  pub method : Str
  pub status : Str

-- The process, the header X-Request-ID of the response, and the requests counted, the last one first.
pub record Exchange (A : Type 0) : Type 0 where
  pub server : Server A
  pub response_id : Str
  pub served : List Served

abbrev pub Inner : Type 0 → Type 0 → Type 0
Inner A B = Call → Exchange A → Option (Response B) × Exchange A

-- `statusClass`
unfoldable pub status_class : ℕ → Str
status_class status = decimal (status / 100) ++ text "xx"

-- `statusRecorder`: a response that writes no code has 200.
abbrev pub recorded_status : Option ℕ → ℕ
recorded_status none = 200
recorded_status (some code) = code

-- `write`: the envelope carries the id of the response.
pub record Envelope (B : Type 0) : Type 0 where
  pub response : Response B
  pub request_id : Str

module _ {A B : Type 0} where
  unfoldable pub request_id : ⦃e : Environment⦄ → Inner A B → Inner A B
  request_id ⦃e⦄ next call x =
      let id =
        if is_empty call.request_id then e.new_uuid x.server.world.step else call.request_id in
      next call (record x { response_id = id })

  -- `Observability`; a panic passes it by.
  unfoldable pub observability : Str → Inner A B → Inner A B
  unfolding status_class
  observability route next call x =
      let (answer, x') = next call x in
      elim answer [
        | none ↦ (none, x')
        | some a ↦ (
          some a,
          record x' {
            served =
                record {
                  route = route;
                  method = call.method;
                  status = status_class (recorded_status (some a.code));
                }
                ∷ x'.served;
          },
        )
      ]

  unfoldable pub recovery : Inner A B → Call → Exchange A → Response B × Exchange A
  unfolding error_response
  recovery next call x =
      let (answer, x') = next call x in
      elim answer [ none ↦ (error_response (domain internal_error), x') | some a ↦ (a, x') ]

  -- A handler within the body limit.
  unfoldable pub within : Handler A B → Inner A B
  within h call x =
      let (answer, s) = h call.request x.server in (some answer, record x { server = s })

  -- `base`, with what an endpoint has inside it.
  unfoldable pub base :
      ⦃e : Environment⦄ → Str → Inner A B → Call → Exchange A → Envelope B × Exchange A
  unfolding recovery request_id observability
  base ⦃e⦄ route inner call x =
      let (answer, x') = recovery (request_id ⦃e = e⦄ (observability route inner)) call x in
      (record { response = answer; request_id = x'.response_id }, x')
