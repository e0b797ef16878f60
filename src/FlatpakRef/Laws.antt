-- ===== src/FlatpakRef/Laws.antt =====
-- What the parser of refs accepts, and how it relates to the printer.
pub mod Slashes
pub mod RoundTrip
pub mod IdRules
