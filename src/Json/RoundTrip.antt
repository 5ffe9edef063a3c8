-- ===== src/Json/RoundTrip.antt =====
-- What the serializer of internal/orderedjson writes is read back.
pub mod Runes
mod Pieces
pub mod Codes
mod Strings
mod Numbers
pub mod Settled
mod Layout
mod Scalars
mod Distinct
mod Arrays
mod Spelling
pub mod Formats
mod Objects
mod Collected
pub mod Documents
