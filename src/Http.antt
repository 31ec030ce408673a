-- ===== src/Http.antt =====
-- src/pkg/middleware, src/pkg/response, src/pkg/router and src/internal/infrastructure/handlers/http.
pub mod Middleware
pub mod Handlers
pub mod Routes
pub mod Outer
pub mod Health
pub mod Setup
pub mod Signatures
pub mod Laws
pub mod Unsigned
