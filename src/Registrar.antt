-- ===== src/Registrar.antt =====
-- Registrars: libfred/registrar.
pub mod Periods
pub mod Certification
pub mod ZoneAccess
pub mod Group
