-- ===== src/Application.antt =====
-- src/internal/application: the transport shapes and the three use cases.
pub mod Dtos
pub mod Usecases
