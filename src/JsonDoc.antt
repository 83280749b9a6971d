-- ===== src/JsonDoc.antt =====
-- internal/jsondoc/decode.go: the scanner that checks a JSON text before it is bound, and the reading of
-- a document from the tokens of `encoding/json`.
pub mod Strings
pub mod Keys
pub mod Scanner
pub mod Bounded
pub mod Ended
pub mod Printing
pub mod Parts
pub mod Spaced
pub mod Entries
pub mod Scanned
pub mod Documents
pub mod Reading
pub mod Read
pub mod Decoded
