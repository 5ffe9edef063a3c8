-- ===== src/Json/Printer.antt =====
-- `Serialize` of internal/orderedjson/orderedjson.go.
mod Strings
mod Numbers
mod Keys
mod Values
unfoldable pub use Strings.*
unfoldable pub use Numbers.*
unfoldable pub use Keys.*
unfoldable pub use Values.*
