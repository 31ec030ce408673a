-- ===== src/Deployment.antt =====
-- src/internal/domain/deployment: the deployed asset with its repayment schedule, and the domain
-- service over the repository and the routing cache.
pub mod Clock
pub mod Entity
pub mod Contracts
pub mod Position
pub mod Service
pub mod Laws
pub mod Registration
pub mod Routing
