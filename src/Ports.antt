-- ===== src/Ports.antt =====
-- The port attributes of an app. The patterns that the two parsers match are in `Match`, the parsers
-- in `RulesAttribute` and `PortGroup`.
pub mod Match
pub mod RulesAttribute
pub mod PortGroup
pub mod Spec
pub mod RoundTrip
