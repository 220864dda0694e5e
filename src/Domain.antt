-- ===== src/Domain.antt =====
-- Domain names: libfred/registrable_object/domain and libfred/zone.
pub mod Name
pub mod Checker
pub mod Validator
pub mod Zone
pub mod Blacklist
pub mod Config
pub mod CheckDomain
mod Tests
