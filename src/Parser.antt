-- ===== src/Parser.antt =====
-- plugins/parser: the parsers of the application layer.
pub mod Rtp
pub mod Sip
