-- ===== src/Config.antt =====
-- src/internal/config: the settings of the service, read from the environment and validated. The
-- environment, the files, `godotenv` and the time zones are parameters.
pub mod Numbers
pub mod Reader
pub mod Sections
pub mod Load
pub mod Needs
pub mod Report
pub mod Laws
pub mod Durations
pub mod RoundTrip
pub mod Production
