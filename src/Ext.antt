-- ===== src/Ext.antt =====
-- ext: the built-in validators of text and the vault of redacted originals. A Go string is its list of
-- bytes.
pub mod Bytes
pub mod TokenVault
pub mod Spans
pub mod Options
pub mod Runes
pub mod Patterns
pub mod Pii
pub mod Words
pub mod Rules
