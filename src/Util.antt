-- ===== src/Util.antt =====
-- General components: src/util.
pub mod Factory
pub mod ParamQuery
pub mod FlagSet
mod Tests
